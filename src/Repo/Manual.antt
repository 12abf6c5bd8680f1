-- ===== src/Repo/Manual.antt =====
-- internal/repo/upstreams.go: the proxies that the operator enters, and the writes to single rows.
use pio.Base.{
  ℕ, ◌+◌, ◌/◌, ◌%◌, Bool, true, false, Option, none, some, List, [], ◌∷◌, GoString, str_eq,
  if◌then◌else◌, ◌&&◌, ◌||◌, not, ◌==◌, leb, ltb,
}
use pio.Base.Int.{ℤ, pos, negsuc}
use pio.Model.{
  UpstreamProxy, ReferencingUser, source_manual, source_default, protocol_http, protocol_https,
  protocol_socks5, default_upstream_id,
}
use pio.Store.{
  Error, Result, ok, err, ◌>>=◌, driver, Tables, not_found, storage, encryption,
  upstream_not_manual, manual_name_in_use, upstream_in_use, invalid_manual_proxy, name_required,
  host_required, port_out_of_range, bad_protocol, password_requires_username, upstream_password_aad,
}
use pio.Repo.Rows.{
  get_upstream, has_row, manual_name_taken, insert_row, change_row, delete_rows, doomed_id,
  has_referencing_users_for_upstream,
}

pub record ManualProxyInput : Type 0 where
  pub name : GoString
  pub host : GoString
  pub port : ℤ
  pub protocol : GoString
  pub username : GoString
  pub password : GoString

-- The white space that strings.TrimSpace trims, in UTF-8.
abbrev pub space1 : ℕ → Bool
space1 a = (leb 9 a && leb a 13) || (a == 32)

abbrev pub space2 : ℕ → ℕ → Bool
space2 a b = (a == 194) && ((b == 133) || (b == 160))

abbrev pub space3 : ℕ → ℕ → ℕ → Bool
space3 a b c =
    ((a == 225) && (b == 154) && (c == 128))
    || ((a == 226)
        && (b == 128)
        && ((leb 128 c && leb c 138) || (c == 168) || (c == 169) || (c == 175)))
    || ((a == 226) && (b == 129) && (c == 159))
    || ((a == 227) && (b == 128) && (c == 128))

-- strings.TrimSpace(s) == ""
unfoldable pub is_blank : GoString → Bool
is_blank [] = true
is_blank (a ∷ []) = space1 a
is_blank (a ∷ b ∷ []) = (space1 a && space1 b) || space2 a b
is_blank (a ∷ b ∷ c ∷ s) =
    (space1 a && is_blank (b ∷ c ∷ s))
    || (space2 a b && is_blank (c ∷ s))
    || (space3 a b c && is_blank s)

abbrev pub port_in_range : ℤ → Bool
port_in_range (pos n) = not (leb n 0 || ltb 65535 n)
port_in_range (negsuc _) = false

abbrev pub known_protocol : GoString → Bool
known_protocol s = str_eq s protocol_http || str_eq s protocol_https || str_eq s protocol_socks5

unfoldable pub validate : ManualProxyInput → Result {0} Unit
validate input =
    if is_blank input.name
    then err (invalid_manual_proxy name_required)
    else if is_blank input.host
    then err (invalid_manual_proxy host_required)
    else if not (port_in_range input.port)
    then err (invalid_manual_proxy port_out_of_range)
    else if not (known_protocol input.protocol)
    then err (invalid_manual_proxy bad_protocol)
    else if not (str_eq input.password []) && str_eq input.username []
    then err (invalid_manual_proxy password_requires_username)
    else ok tt

-- The column's number, of a port that validate has let through.
abbrev pub port_column : ℤ → ℕ
port_column (pos n) = n
port_column (negsuc _) = 0

abbrev hex_digit : ℕ → ℕ
hex_digit n = if ltb n 10 then 48 + n else 87 + n

-- hex.EncodeToString
unfoldable pub hex : List ℕ → GoString
hex [] = []
hex (b ∷ bs) = hex_digit (b / 16) ∷ hex_digit (b % 16) ∷ hex bs

-- newManualID: `random` is what crypto/rand read, eight bytes.
abbrev pub new_manual_id : Option (List ℕ) → Result GoString
new_manual_id none = err storage
new_manual_id (some random) = ok (hex random)

abbrev pub manual_row : GoString → ManualProxyInput → GoString → ℕ → UpstreamProxy
manual_row id input enc now = record {
  id = id;
  source = source_manual;
  source_api_key_id = none;
  manual_name = input.name;
  host = input.host;
  port = port_column input.port;
  username = input.username;
  encrypted_password = enc;
  protocol = input.protocol;
  display_name = input.name;
  country_code = [];
  city_name = [];
  recently_failing = false;
  recent_failure_count = 0;
  recent_failure_since = none;
  last_seen_at = now;
  last_latency_ms = none;
  last_latency_at = none;
}

-- The columns that UpdateManualProxy sets, on a row of source 'manual'.
abbrev pub rewrite : ManualProxyInput → GoString → UpstreamProxy → UpstreamProxy
rewrite input enc u =
    if str_eq u.source source_manual
    then record u {
      manual_name = input.name;
      host = input.host;
      port = port_column input.port;
      username = input.username;
      encrypted_password = enc;
      protocol = input.protocol;
      display_name = input.name;
    }
    else u

abbrev pub require : Bool → Error → Result {0} Unit
require true e = ok tt
require false e = err e

-- `encrypt` is crypto.Encrypt under the master key with the nonce of this call.
module _ (encrypt : GoString → GoString → Option GoString) where
  abbrev pub encrypted : GoString → GoString → Result GoString
  encrypted aad plaintext = elim (encrypt aad plaintext) [
    | none ↦ err encryption
    | some enc ↦ ok enc
  ]

  -- The ciphertext for a password, where an empty password stands for `unset`.
  abbrev pub password_column : GoString → GoString → Result GoString
  password_column unset [] = ok unset
  password_column unset (b ∷ bs) = encrypted upstream_password_aad (b ∷ bs)

  unfoldable pub insert_manual_proxy :
      Bool → Option (List ℕ) → ℕ → ManualProxyInput → Tables → Result (GoString × Tables)
  insert_manual_proxy fails random now input t = do
    valid ← validate input
    id ← new_manual_id random
    enc ← password_column [] input.password
    begun ← driver fails t
    stored ← insert_row (manual_row id input enc now) begun
    ok (id, stored)

  -- An empty password keeps the ciphertext of the row. The read of the row and the UPDATE are
  -- taken together, as one step on one state of the tables.
  unfoldable pub update_manual_proxy :
      Bool → Bool → GoString → ManualProxyInput → Tables → Result Tables
  update_manual_proxy get_fails fails id input t = do
    valid ← validate input
    cur ← get_upstream get_fails id t
    manual ← require (str_eq cur.source source_manual) upstream_not_manual
    enc ← password_column cur.encrypted_password input.password
    rows ← driver fails t.upstream_proxies
    if manual_name_taken id input.name rows
        then err manual_name_in_use
        else ok (record t { upstream_proxies = change_row id (rewrite input enc) rows })

abbrev pub is_manual_id : GoString → UpstreamProxy → Bool
is_manual_id id u = str_eq u.id id && str_eq u.source source_manual

abbrev pub unless_used : List ReferencingUser → Result {0} Unit
unless_used [] = ok tt
unless_used (r ∷ refs) = err (upstream_in_use (r ∷ refs))

-- DeleteManualProxy: three statements, each on the tables of its own moment. Others may write in
-- between: `read` are the tables of GetUpstream, `seen` those of the check, `t` those of the DELETE.
unfoldable pub delete_manual_proxy :
    Bool → Bool → Bool → GoString → Tables → Tables → Tables → Result Tables
delete_manual_proxy get_fails refs_fail fails id read seen t = do
  cur ← get_upstream get_fails id read
  manual ← require (str_eq cur.source source_manual) upstream_not_manual
  refs ← has_referencing_users_for_upstream refs_fail id seen
  free ← unless_used refs
  deleted ← driver fails (delete_rows (is_manual_id id) t)
  if doomed_id (is_manual_id id) id t.upstream_proxies then ok deleted else err not_found

abbrev pub default_row : ℕ → UpstreamProxy
default_row now = record {
  id = default_upstream_id;
  source = source_default;
  source_api_key_id = none;
  manual_name = [];
  host = [];
  port = 0;
  username = [];
  encrypted_password = [];
  protocol = protocol_http;
  display_name = default_upstream_id;
  country_code = [];
  city_name = [];
  recently_failing = false;
  recent_failure_count = 0;
  recent_failure_since = none;
  last_seen_at = now;
  last_latency_ms = none;
  last_latency_at = none;
}

-- INSERT ... ON CONFLICT(id) DO NOTHING
unfoldable pub ensure_default_upstream : Bool → ℕ → Tables → Result Tables
ensure_default_upstream fails now t = do
  begun ← driver fails t
  if has_row default_upstream_id begun.upstream_proxies
      then ok begun
      else insert_row (default_row now) begun

unfoldable pub update_upstream_latency : Bool → GoString → ℤ → ℕ → Tables → Result Tables
update_upstream_latency fails id ms at t = driver fails (record t {
  upstream_proxies =
      change_row id (λ u. record u { last_latency_ms = some ms; last_latency_at = some at })
        t.upstream_proxies;
})

unfoldable pub update_upstream_display_name : Bool → GoString → GoString → Tables → Result Tables
update_upstream_display_name fails id display_name t = do
  written ← driver fails (record t {
    upstream_proxies =
        change_row id (λ u. record u { display_name = display_name }) t.upstream_proxies;
  })
  if has_row id t.upstream_proxies then ok written else err not_found
