-- ===== src/Repo/Rows.antt =====
-- internal/repo: what one SQL statement does to the tables, with the constraints that SQLite holds:
-- the primary keys, the unique manual_name of manual rows, and the foreign keys of local_users
-- (ON DELETE SET NULL) and upstream_proxies. A table is a set of rows: where a new row stands in the
-- list has no meaning.
use pio.Base.{
  ℕ, Bool, true, false, Option, none, some, List, [], ◌∷◌, GoString, str_discrete, str_eq,
  if◌then◌else◌, ite, ◌&&◌, ◌||◌, not, ◌==◌,
}
use pio.Model.{ApiKey, UpstreamProxy, LocalUser, ReferencingUser, source_manual}
unfoldable pub use pio.Store.{has_row}
use pio.Store.{Result, ok, err, ◌>>=◌, driver, not_found, constraint, manual_name_in_use, Tables}

abbrev pub Rows : Type 0
Rows = List UpstreamProxy

-- WHERE id = ?
unfoldable pub row_of : GoString → Rows → Option UpstreamProxy
row_of id [] = none
row_of id (u ∷ us) = ite (str_discrete u.id id) (some u) (row_of id us)

-- Another row of source 'manual' with the name: the id of the row that is written is left aside.
unfoldable pub manual_name_taken : GoString → GoString → Rows → Bool
manual_name_taken id name [] = false
manual_name_taken id name (u ∷ us) =
    (str_eq u.source source_manual && str_eq u.manual_name name && not (str_eq u.id id))
    || manual_name_taken id name us

unfoldable pub has_key : ℕ → List ApiKey → Bool
has_key k [] = false
has_key k (a ∷ keys) = (a.id == k) || has_key k keys

-- source_api_key_id is NULL or the id of a key.
abbrev pub key_known : Option ℕ → List ApiKey → Bool
key_known none keys = true
key_known (some k) keys = has_key k keys

unfoldable pub get_upstream : Bool → GoString → Tables → Result UpstreamProxy
get_upstream fails id t = do
  rows ← driver fails t.upstream_proxies
  elim (row_of id rows) [ none ↦ err not_found | some u ↦ ok u ]

-- INSERT INTO upstream_proxies. A collision of manual names is the error that isUniqueViolation finds.
unfoldable pub insert_row : UpstreamProxy → Tables → Result Tables
insert_row u t =
    if has_row u.id t.upstream_proxies || not (key_known u.source_api_key_id t.api_keys)
    then err constraint
    else if str_eq u.source source_manual && manual_name_taken u.id u.manual_name t.upstream_proxies
    then err manual_name_in_use
    else ok (record t { upstream_proxies = u ∷ t.upstream_proxies })

-- UPDATE upstream_proxies SET ... WHERE id = ?
unfoldable pub change_row : GoString → (UpstreamProxy → UpstreamProxy) → Rows → Rows
change_row id f [] = []
change_row id f (u ∷ us) = (if str_eq u.id id then f u else u) ∷ change_row id f us

-- A row with the id that the test is true of.
unfoldable pub doomed_id : (UpstreamProxy → Bool) → GoString → Rows → Bool
doomed_id p id [] = false
doomed_id p id (u ∷ us) = (str_eq u.id id && p u) || doomed_id p id us

unfoldable pub kept_rows : (UpstreamProxy → Bool) → Rows → Rows
kept_rows p [] = []
kept_rows p (u ∷ us) = if p u then kept_rows p us else u ∷ kept_rows p us

-- ON DELETE SET NULL, for one mapping.
abbrev pub set_null : (GoString → Bool) → Option GoString → Option GoString
set_null gone none = none
set_null gone (some id) = if gone id then none else some id

unfoldable pub null_mappings : (GoString → Bool) → List LocalUser → List LocalUser
null_mappings gone [] = []
null_mappings gone (u ∷ us) =
    record u { upstream_proxy_id = set_null gone u.upstream_proxy_id } ∷ null_mappings gone us

-- DELETE FROM upstream_proxies WHERE ..., with the mappings that it takes along.
unfoldable pub delete_rows : (UpstreamProxy → Bool) → Tables → Tables
delete_rows p t = record t {
  upstream_proxies = kept_rows p t.upstream_proxies;
  local_users = null_mappings (λ id. doomed_id p id t.upstream_proxies) t.local_users;
}

-- FROM local_users JOIN upstream_proxies ON id = upstream_proxy_id, for one user.
abbrev pub joined : Option GoString → Rows → Option UpstreamProxy
joined none rows = none
joined (some id) rows = row_of id rows

abbrev pub reference : LocalUser → UpstreamProxy → ReferencingUser
reference lu up = record {
  username = lu.username;
  upstream_proxy_id = up.id;
  display_name = up.display_name;
  country_code = up.country_code;
}

unfoldable pub referencing_users :
    (UpstreamProxy → Bool) → Rows → List LocalUser → List ReferencingUser
referencing_users p rows [] = []
referencing_users p rows (lu ∷ us) =
    let rest = referencing_users p rows us in
    elim (joined lu.upstream_proxy_id rows) [
      | none ↦ rest
      | some up ↦ if p up then reference lu up ∷ rest else rest
    ]

unfoldable pub has_referencing_users_for_upstream :
    Bool → GoString → Tables → Result (List ReferencingUser)
has_referencing_users_for_upstream fails id t =
    driver fails (referencing_users (λ up. str_eq up.id id) t.upstream_proxies t.local_users)
