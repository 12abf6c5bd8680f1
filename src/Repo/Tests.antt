-- ===== src/Repo/Tests.antt =====
-- Runs of the operations of internal/repo on the rows of Fixtures.
use pio.Base.{
  none, ◌≡◌, refl, true, false, some, [], ◌∷◌, ◌++◌, GoString, codes, drop, arith, str_discrete,
}
use pio.Base.Map.{Map, find, put, remove}
use pio.Base.Int.{pos}
use pio.Model.{LocalUser, ResolvedUpstream, protocol_socks5}
use pio.Store.{
  Tables, Result, ok, err, invalid_manual_proxy, port_out_of_range, upstream_in_use,
  resolve_password, resolve_rows, list_all_resolved_upstreams, load_universal_proxy_password,
}
use pio.Fixtures.{us, uk, ann, bob, key, tables}
use pio.Crypto.{Sealing, Unsealing, IsAead, encrypt, decrypt}
use pio.Repo.Rows.{
  row_of, has_row, manual_name_taken, insert_row, get_upstream, kept_rows, doomed_id, null_mappings,
  delete_rows, referencing_users, has_referencing_users_for_upstream, reference,
}
use pio.Repo.Manual.{
  ManualProxyInput, is_blank, validate, hex, manual_row, insert_manual_proxy, is_manual_id,
  delete_manual_proxy,
}
use pio.Repo.Keys.{
  KeyDeletion, has_referencing_users_for_key, drop_key, key_referenced, delete_api_key, is_synced,
  key_delete_entry,
}
use pio.Repo.Config.{set_universal_proxy_password, has_universal_proxy_password}
use pio.Repo.Guards.{Deletes, delete_manual_proxy-Deletes, delete_api_key-Deletes}
use pio.Repo.Secrets.{open_column, manual_proxy_resolves, universal_password_loads}

-- A cipher that puts its tag in front.
abbrev tag : GoString
tag = 0 ∷ 0 ∷ 0 ∷ 0 ∷ 0 ∷ 0 ∷ 0 ∷ 0 ∷ 0 ∷ 0 ∷ 0 ∷ 0 ∷ 0 ∷ 0 ∷ 0 ∷ 0 ∷ []

abbrev toy_seal : Sealing
toy_seal master n plaintext aad = tag ++ plaintext

abbrev toy_unseal : Unsealing
toy_unseal master n sealed aad = some (drop 16 sealed)

toy-IsAead : IsAead toy_seal toy_unseal
toy-IsAead = record {
  opens = λ master n plaintext aad. refl;
  tagged = λ master n plaintext aad. omega arith;
}

abbrev master_key : GoString
master_key = codes "0123456789abcdef0123456789abcdef"

abbrev nonce : GoString
nonce = codes "123456789012"

abbrev input : ManualProxyInput
input = record {
  name = codes "home";
  host = codes "h.example";
  port = pos 1080;
  protocol = protocol_socks5;
  username = codes "me";
  password = codes "pw";
}

abbrev manual_tables : Tables
manual_tables = record tables { upstream_proxies = uk ∷ []; local_users = bob ∷ [] }

abbrev stored_row : Tables
stored_row = record manual_tables {
  upstream_proxies =
      manual_row (codes "0a") input (nonce ++ tag ++ codes "pw") 5 ∷ manual_tables.upstream_proxies;
}

abbrev listing_of : Result (Map GoString ResolvedUpstream) → Map GoString ResolvedUpstream
listing_of (ok m) = m
listing_of (err e) = []

port_bound :
    validate (record input { port = pos 65536 }) ≡ err (invalid_manual_proxy port_out_of_range)
unfolding validate is_blank
port_bound = refl

used_proxy :
    delete_manual_proxy false false false
      (codes "uk-1")
      tables
      (record tables { local_users = record ann { upstream_proxy_id = some (codes "uk-1") } ∷ [] })
      tables
    ≡ err (upstream_in_use (reference ann uk ∷ []))
unfolding delete_manual_proxy get_upstream row_of has_referencing_users_for_upstream
    referencing_users str_discrete
used_proxy = refl

manual_proxy_resolves_example :
    find str_discrete (codes "0a") (
      listing_of (list_all_resolved_upstreams (open_column toy_unseal master_key) false stored_row))
    ≡ some (record { upstream = manual_row (codes "0a") input [] 5; password = codes "pw" })
unfolding insert_manual_proxy validate is_blank hex insert_row has_row manual_name_taken encrypt
    str_discrete list_all_resolved_upstreams resolve_rows resolve_password decrypt put remove
manual_proxy_resolves_example =
    manual_proxy_resolves toy_seal toy_unseal toy-IsAead master_key nonce refl false false
      (some (10 ∷ [])) 5 input manual_tables stored_row (codes "0a")
      (listing_of
        (list_all_resolved_upstreams (open_column toy_unseal master_key) false stored_row))
      refl refl

abbrev sealed_tables : Tables
sealed_tables = record manual_tables { universal_proxy_password_enc = nonce ++ tag ++ codes "all" }

universal_password_loads_example :
    (load_universal_proxy_password (open_column toy_unseal master_key) false sealed_tables
      ≡ ok (codes "all"))
    × (has_universal_proxy_password false sealed_tables ≡ ok true)
unfolding set_universal_proxy_password encrypt str_discrete
universal_password_loads_example =
    universal_password_loads toy_seal toy_unseal toy-IsAead master_key nonce refl false
      (codes "all") manual_tables sealed_tables refl

abbrev unmapped_bob : LocalUser
unmapped_bob = record bob { upstream_proxy_id = none }

-- A user is mapped to the proxy after the guard has looked.
abbrev late_mapping : Tables
late_mapping = record tables {
  local_users = ann ∷ record bob { upstream_proxy_id = some (codes "uk-1") } ∷ [];
}

delete_manual_proxy-Deletes_example :
    Deletes (is_manual_id (codes "uk-1")) tables late_mapping (us ∷ []) (ann ∷ unmapped_bob ∷ [])
unfolding delete_manual_proxy get_upstream row_of has_row has_referencing_users_for_upstream
    referencing_users delete_rows kept_rows doomed_id null_mappings str_discrete
delete_manual_proxy-Deletes_example =
    delete_manual_proxy-Deletes false false false (codes "uk-1") tables tables late_mapping
      (record tables { upstream_proxies = us ∷ []; local_users = ann ∷ unmapped_bob ∷ [] })
      (refl, (refl, tt)) refl

abbrev deletion : KeyDeletion
deletion = record {
  refs_fail = false;
  begin_fails = false;
  upstreams_fail = false;
  key_fails = false;
  audit_fails = false;
  commit_fails = false;
  now = 3;
}

abbrev unmapped : Tables
unmapped = record tables { local_users = bob ∷ [] }

delete_api_key-Deletes_example :
    Deletes (is_synced 1) unmapped unmapped (uk ∷ []) (bob ∷ []) × ([] ≡ drop_key 1 (key ∷ []))
unfolding delete_api_key has_row has_referencing_users_for_key referencing_users delete_rows
    kept_rows doomed_id null_mappings key_referenced drop_key str_discrete
delete_api_key-Deletes_example =
    delete_api_key-Deletes deletion 1 unmapped unmapped
      (record unmapped {
        upstream_proxies = uk ∷ [];
        api_keys = [];
        audit_log = key_delete_entry 3 ∷ [];
      })
      (refl, (refl, tt)) refl
