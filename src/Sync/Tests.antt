-- ===== src/Sync/Tests.antt =====
-- Runs of the allocator and of the labels.
use pio.Base.{
  ℕ, ◌≡◌, refl, false, Option, some, List, [], ◌∷◌, GoString, codes, str_discrete, ◌⊎◌, inr, arith,
}
use pio.Base.Map.{find, put, remove}
use pio.Model.{UpstreamProxy}
use pio.Store.{Error, Result, Tables, ok, err}
use pio.Fixtures.{us, uk, tables, open_cipher}
use pio.Wire.Text.{read_digits}
use pio.Repo.Rows.{
  row_of, has_row, has_key, manual_name_taken, insert_row, change_row, delete_rows, kept_rows,
  doomed_id, null_mappings,
}
use pio.Repo.Manual.{hex}
use pio.Repo.Keys.{mark_api_key_sync_success, change_key}
use pio.Sync.Names.{
  last_hyphen, split_country, all_label_bytes, seq_of, parse_display_name,
  parse_legacy_display_name,
}
use pio.Sync.Reconcile.{
  Proxy, SyncRun, stable_id, id_of, incoming_ids, member, load_existing_upstreams,
  build_seq_allocator, sync_proxy, sync_proxies, delete_stale, reconcile, sync_key,
}
use pio.Sync.Mirror.{Settled, sync_key-Settled}
use pio.Sync.Keeping.{name_of, reconcile_keeps_names}
use pio.Sync.RoundTrip.{parse_display_name-format_display_name}
use pio.Wire.Text.{digits}
use pio.Sync.{
  SeqAllocator, new_seq_allocator, reserve, next, lowest_free, kept_bytes, sanitize_label,
  format_display_name,
}
use pio.Sync.Lowest.{AllocatesLowest, next-AllocatesLowest}

abbrev one_and_three : SeqAllocator
one_and_three = reserve (codes "US") 3 (reserve (codes "US") 1 new_seq_allocator)

label_keeps_letters : sanitize_label (codes "My key: 1") ≡ codes "Mykey1"
unfolding sanitize_label kept_bytes
label_keeps_letters = refl

name_is_canonical : format_display_name (codes "US") (codes "key") 2 ≡ codes "key-US-02"
unfolding digits
name_is_canonical = refl

next-AllocatesLowest_example : AllocatesLowest (codes "US") one_and_three
next-AllocatesLowest_example = next-AllocatesLowest (codes "US") one_and_three

-- A hash that keeps its text, so that the ids of two proxies differ.
abbrev plain_hash : List ℕ → List ℕ
plain_hash bytes = bytes

abbrev clear_text : ℕ → GoString → GoString → Option GoString
clear_text nonce aad plaintext = some (7 ∷ plaintext)

abbrev proxy : Proxy
proxy = record {
  proxy_address = codes "1";
  port = 80;
  username = codes "u";
  password = codes "p";
  country_code = codes "US";
  city_name = [];
}

abbrev other_proxy : Proxy
other_proxy = record proxy { proxy_address = codes "2"; country_code = codes "GB" }

abbrev run : SyncRun
run = record {
  load_fails = false;
  meanwhile = λ t. t;
  mark_error_fails = false;
  begin_fails = false;
  existing_fails = false;
  exec_fails = λ i. false;
  delete_fails = λ id. false;
  mark_fails = false;
  commit_fails = false;
  now = 9;
}

abbrev fetch_answer : GoString → GoString ⊎ List Proxy
fetch_answer secret = inr (proxy ∷ other_proxy ∷ [])

-- A row of the key whose proxy stays, under a chosen name, and one whose proxy has gone.
abbrev staying : UpstreamProxy
staying = record us { id = id_of plain_hash proxy; display_name = codes "my exit" }

abbrev before : Tables
before = record tables { upstream_proxies = staying ∷ us ∷ uk ∷ [] }

abbrev rows_of : Result Tables → Tables
rows_of (ok t) = t
rows_of (err e) = before

abbrev after : Tables
after =
    rows_of
      (reconcile plain_hash clear_text run 1 (codes "My key") (proxy ∷ other_proxy ∷ []) before)

sync_key-Settled_example :
    Settled plain_hash clear_text open_cipher fetch_answer run 1 before before
      (sync_key plain_hash clear_text open_cipher fetch_answer run 1 before)
    ⊎ ((e : Error) × (sync_key plain_hash clear_text open_cipher fetch_answer run 1 before
          ≡ (err e, before)))
unfolding has_row stable_id hex digits str_discrete
sync_key-Settled_example =
    sync_key-Settled plain_hash clear_text open_cipher fetch_answer run 1 before
      (refl, (refl, (refl, tt)))

reconcile_keeps_names_example :
    name_of (id_of plain_hash proxy) after.upstream_proxies ≡ some (codes "my exit")
unfolding has_row stable_id hex digits str_discrete reconcile load_existing_upstreams sync_proxies
    sync_proxy incoming_ids member build_seq_allocator parse_display_name parse_legacy_display_name
    last_hyphen split_country seq_of delete_stale delete_rows kept_rows doomed_id null_mappings
    change_row insert_row next lowest_free reserve find put remove read_digits
    mark_api_key_sync_success change_key row_of has_key manual_name_taken kept_bytes sanitize_label
    all_label_bytes
reconcile_keeps_names_example =
    reconcile_keeps_names plain_hash clear_text run 1 (codes "My key") (proxy ∷ other_proxy ∷ [])
      before after (id_of plain_hash proxy) staying refl refl refl refl refl

parse_display_name-format_display_name_example :
    parse_display_name (format_display_name (codes "US") (sanitize_label (codes "My key")) 7)
    ≡ some (codes "US", sanitize_label (codes "My key"), 7)
parse_display_name-format_display_name_example =
    parse_display_name-format_display_name 85 83 (codes "My key") 7 refl refl (omega arith)
