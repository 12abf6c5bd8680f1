-- ===== src/Sync/Reconcile.antt =====
-- internal/sync/sync.go: one sync of an API key. The fetch, SHA-1 and AES-GCM are arguments.
use pio.Base.{
  ℕ, ◌+◌, Bool, false, Option, none, some, List, [], ◌∷◌, ◌++◌, GoString, codes, str_discrete,
  str_eq, take, ◌&&◌, ◌||◌, if◌then◌else◌, ◌⊎◌, inl, inr,
}
use pio.Base.Map.{Map, find, put}
use pio.Model.{UpstreamProxy, source_webshare, protocol_http}
use pio.Store.{
  Result, ok, err, ◌>>=◌, driver, Tables, constraint, fetch_failed, upstream_password_aad,
}
use pio.Wire.Text.{itoa}
use pio.Repo.Rows.{Rows, insert_row, change_row, delete_rows}
use pio.Repo.Manual.{hex, encrypted}
use pio.Repo.Keys.{get_api_key_plain, mark_api_key_sync_success, mark_api_key_sync_error, is_synced}
use pio.Sync.{SeqAllocator, new_seq_allocator, reserve, next, sanitize_label, format_display_name}
use pio.Sync.Names.{parse_display_name, parse_legacy_display_name}

-- webshare.Proxy, without CreatedAt, which no code reads. A port is a number from 0 on here.
pub record Proxy : Type 0 where
  pub proxy_address : GoString
  pub port : ℕ
  pub username : GoString
  pub password : GoString
  pub country_code : GoString
  pub city_name : GoString

pub record ExistingUpstream : Type 0 where
  pub id : GoString
  pub display_name : GoString
  pub country_code : GoString

-- map[string]existingUpstream
abbrev pub Existing : Type 0
Existing = Map GoString ExistingUpstream

unfoldable pub load_existing_upstreams : ℕ → Rows → Existing
load_existing_upstreams key [] = []
load_existing_upstreams key (u ∷ us) =
    let rest = load_existing_upstreams key us in
    if is_synced key u
    then put str_discrete u.id
        (record { id = u.id; display_name = u.display_name; country_code = u.country_code }) rest
    else rest

-- map[string]struct{}, as the list of its keys
unfoldable pub member : GoString → List GoString → Bool
member i [] = false
member i (j ∷ ids) = str_eq j i || member i ids

abbrev reserve_legacy : ExistingUpstream → SeqAllocator → SeqAllocator
reserve_legacy e a = elim (parse_legacy_display_name e.display_name) [
  | none ↦ a
  | some (_, _, n) ↦ reserve e.country_code n a
]

abbrev reserve_row : GoString → ExistingUpstream → SeqAllocator → SeqAllocator
reserve_row sanitized_label e a = elim (parse_display_name e.display_name) [
  | none ↦ reserve_legacy e a
  | some (cc, label, n) ↦
      if str_eq cc e.country_code && str_eq label sanitized_label
      then reserve cc n a
      else reserve_legacy e a
]

unfoldable pub build_seq_allocator : Existing → List GoString → GoString → SeqAllocator
build_seq_allocator [] surviving sanitized_label = new_seq_allocator
build_seq_allocator ((id, e) ∷ existing) surviving sanitized_label =
    let a = build_seq_allocator existing surviving sanitized_label in
    if member id surviving then reserve_row sanitized_label e a else a

-- The driver calls of a sync that fail: `exec_fails` at each proxy, `delete_fails` for each stale
-- row. `meanwhile` is what others write while the list is fetched, `now` the clock.
pub record SyncRun : Type 0 where
  pub load_fails : Bool
  pub meanwhile : Tables → Tables
  pub mark_error_fails : Bool
  pub begin_fails : Bool
  pub existing_fails : Bool
  pub exec_fails : ℕ → Bool
  pub delete_fails : GoString → Bool
  pub mark_fails : Bool
  pub commit_fails : Bool
  pub now : ℕ

-- The display name that an existing row gets: a legacy name is rewritten, any other stays.
abbrev pub renamed : GoString → GoString → GoString → GoString → GoString
renamed cc sanitized_label stored display_name = elim (parse_legacy_display_name stored) [
  | none ↦ display_name
  | some (_, _, n) ↦ format_display_name cc sanitized_label n
]

abbrev pub refreshed : Proxy → GoString → GoString → GoString → ℕ → UpstreamProxy → UpstreamProxy
refreshed p enc sanitized_label stored now u = record u {
  host = p.proxy_address;
  port = p.port;
  username = p.username;
  encrypted_password = enc;
  country_code = p.country_code;
  city_name = p.city_name;
  display_name = renamed p.country_code sanitized_label stored u.display_name;
  last_seen_at = now;
}

abbrev pub new_row : GoString → ℕ → Proxy → GoString → GoString → ℕ → UpstreamProxy
new_row id key p enc display_name now = record {
  id = id;
  source = source_webshare;
  source_api_key_id = some key;
  manual_name = [];
  host = p.proxy_address;
  port = p.port;
  username = p.username;
  encrypted_password = enc;
  protocol = protocol_http;
  display_name = display_name;
  country_code = p.country_code;
  city_name = p.city_name;
  recently_failing = false;
  recent_failure_count = 0;
  recent_failure_since = none;
  last_seen_at = now;
  last_latency_ms = none;
  last_latency_at = none;
}

abbrev pub insert_named :
    ℕ
    → GoString
    → GoString
    → Proxy
    → GoString
    → ℕ
    → Bool
    → ℕ × SeqAllocator
    → Tables
    → Result (SeqAllocator × Tables)
insert_named key sanitized_label id p enc now fails (n, a) t = do
  called ← driver fails t
  stored ←
      insert_row (new_row id key p enc (format_display_name p.country_code sanitized_label n) now)
        called
  ok (a, stored)

-- A row of a proxy that the sync has not seen: it takes the lowest free number. The allocator
-- always answers.
abbrev pub insert_new :
    ℕ
    → GoString
    → GoString
    → Proxy
    → GoString
    → ℕ
    → Bool
    → SeqAllocator × Tables
    → Result (SeqAllocator × Tables)
insert_new key sanitized_label id p enc now fails (a, t) = elim (next p.country_code a) [
  | none ↦ err constraint
  | some given ↦ insert_named key sanitized_label id p enc now fails given t
]

abbrev pub is_stale : GoString → UpstreamProxy → Bool
is_stale id u = str_eq u.id id && str_eq u.source source_webshare

-- The loop over the existing ids, which deletes the rows that are not incoming.
unfoldable pub delete_stale : SyncRun → List GoString → Existing → Tables → Result Tables
delete_stale run incoming [] t = ok t
delete_stale run incoming ((id, e) ∷ existing) t =
    if member id incoming then delete_stale run incoming existing t else do
      deleted ← driver (run.delete_fails id) (delete_rows (is_stale id) t)
      delete_stale run incoming existing deleted

-- A failure of a write that is made at best effort leaves the tables.
abbrev pub or_left : Result Tables → Tables → Tables
or_left (ok t') t = t'
or_left (err e) t = t

abbrev pub committed : Result Tables → Tables → Result {0} Unit × Tables
committed (ok t') t = (ok tt, t')
committed (err e) t = (err e, t)

module _ (sha1 : List ℕ → List ℕ) where
  unfoldable pub stable_id : GoString → ℕ → GoString → GoString
  stable_id host port username =
      take 16 (hex (sha1 (host ++ codes ":" ++ itoa port ++ codes ":" ++ username)))

  abbrev pub id_of : Proxy → GoString
  id_of p = stable_id p.proxy_address p.port p.username

  unfoldable pub incoming_ids : List Proxy → List GoString
  incoming_ids [] = []
  incoming_ids (p ∷ ps) = id_of p ∷ incoming_ids ps

-- `encrypt` is crypto.Encrypt under the master key, with the nonce of the call for each proxy.
module _ (sha1 : List ℕ → List ℕ) (encrypt : ℕ → GoString → GoString → Option GoString) where
  module _ (run : SyncRun) (key : ℕ) (sanitized_label : GoString) (existing : Existing) where
    -- One turn of the loop over the proxies, at position `i`.
    unfoldable pub sync_proxy : ℕ → Proxy → SeqAllocator × Tables → Result (SeqAllocator × Tables)
    sync_proxy i p (a, t) = do
      enc ← encrypted (encrypt i) upstream_password_aad p.password
      elim (find str_discrete (id_of sha1 p) existing) [
        | none ↦
            insert_new key sanitized_label (id_of sha1 p) p enc run.now (run.exec_fails i) (a, t)
        | some row ↦ driver (run.exec_fails i) (
          a,
          record t {
            upstream_proxies =
                change_row (id_of sha1 p) (refreshed p enc sanitized_label row.display_name run.now)
                  t.upstream_proxies;
          },
        )
      ]

    unfoldable pub sync_proxies :
        ℕ → List Proxy → SeqAllocator × Tables → Result (SeqAllocator × Tables)
    sync_proxies i [] s = ok s
    sync_proxies i (p ∷ ps) s = do s' ← sync_proxy i p s; sync_proxies (i + 1) ps s'

  -- The transaction of SyncKey.
  unfoldable pub reconcile : SyncRun → ℕ → GoString → List Proxy → Tables → Result Tables
  reconcile run key label proxies t = do
    begun ← driver run.begin_fails t
    existing ← driver run.existing_fails (load_existing_upstreams key begun.upstream_proxies)
    synced ←
        sync_proxies run key (sanitize_label label) existing 0 proxies
          (build_seq_allocator existing (incoming_ids sha1 proxies) (sanitize_label label), begun)
    cleaned ← delete_stale run (incoming_ids sha1 proxies) existing synced.1
    marked ← mark_api_key_sync_success run.mark_fails key run.now cleaned
    driver run.commit_fails marked

  module _ (decrypt : GoString → GoString → Option GoString)
      (fetch : GoString → GoString ⊎ List Proxy) where
    -- What the list of proxies, or the error of its fetch, makes of the tables.
    abbrev pub fetched :
        SyncRun → ℕ → GoString → GoString ⊎ List Proxy → Tables → Result {0} Unit × Tables
    fetched run key label (inl message) t = (
      err (fetch_failed message),
      or_left (mark_api_key_sync_error run.mark_error_fails key message t) t,
    )
    fetched run key label (inr proxies) t = committed (reconcile run key label proxies t) t

    unfoldable pub sync_key : SyncRun → ℕ → Tables → Result {0} Unit × Tables
    sync_key run key t = elim (get_api_key_plain decrypt run.load_fails key t) [
      | err e ↦ (err e, t)
      | ok (plain, label) ↦ fetched run key label (fetch plain) (run.meanwhile t)
    ]
