-- ===== src/Repo/Keys.antt =====
-- internal/repo/repo.go, and DeleteApiKey of upstreams.go: the API keys. `encrypt` and `decrypt` are
-- crypto.Encrypt and crypto.Decrypt under the master key, of an AAD and a text.
use pio.Base.{
  ℕ, Bool, true, false, Option, none, some, List, [], ◌∷◌, ◌++◌, GoString, codes, str_eq,
  if◌then◌else◌, ◌&&◌, ◌||◌, ◌==◌, leb,
}
use pio.Model.{ApiKey, UpstreamProxy, ReferencingUser, AuditLogEntry, source_webshare}
use pio.Store.{
  Result, ok, err, ◌>>=◌, driver, Tables, not_found, constraint, decryption, key_in_use,
}
use pio.Repo.Rows.{Rows, delete_rows, referencing_users}
use pio.Repo.Manual.{encrypted}
use pio.Repo.Order.{sort}

abbrev pub api_key_aad : GoString
api_key_aad = codes "api_keys.encrypted_key"

-- InsertApiKey: `id` is the number that AUTOINCREMENT picks.
unfoldable pub insert_api_key :
    (GoString → GoString → Option GoString)
    → Bool
    → ℕ
    → ℕ
    → GoString
    → GoString
    → Tables
    → Result (ℕ × Tables)
insert_api_key encrypt fails id now label api_key_plain t = do
  enc ← encrypted encrypt api_key_aad api_key_plain
  begun ← driver fails t
  ok (
    id,
    record begun {
      api_keys =
          record {
            id = id;
            label = label;
            encrypted_key = enc;
            added_at = now;
            last_synced_at = none;
            last_sync_error = [];
            active = true;
          }
          ∷ begun.api_keys;
    },
  )

unfoldable pub key_row : ℕ → List ApiKey → Option ApiKey
key_row id [] = none
key_row id (k ∷ keys) = if k.id == id then some k else key_row id keys

-- GetApiKeyPlain: the API key and its label.
unfoldable pub get_api_key_plain :
    (GoString → GoString → Option GoString) → Bool → ℕ → Tables → Result (GoString × GoString)
get_api_key_plain decrypt fails id t = do
  keys ← driver fails t.api_keys
  elim (key_row id keys) [
    | none ↦ err not_found
    | some k ↦ elim (decrypt api_key_aad k.encrypted_key) [
      | none ↦ err decryption
      | some plain ↦ ok (plain, k.label)
    ]
  ]

-- UPDATE api_keys SET ... WHERE id = ?
unfoldable pub change_key : ℕ → (ApiKey → ApiKey) → List ApiKey → List ApiKey
change_key id f [] = []
change_key id f (k ∷ keys) = (if k.id == id then f k else k) ∷ change_key id f keys

unfoldable pub mark_api_key_sync_success : Bool → ℕ → ℕ → Tables → Result Tables
mark_api_key_sync_success fails id at t = driver fails (record t {
  api_keys =
      change_key id (λ k. record k { last_synced_at = some at; last_sync_error = [] }) t.api_keys;
})

unfoldable pub mark_api_key_sync_error : Bool → ℕ → GoString → Tables → Result Tables
mark_api_key_sync_error fails id message t =
    driver fails (record t {
      api_keys = change_key id (λ k. record k { last_sync_error = message }) t.api_keys;
    })

-- ORDER BY id
unfoldable pub list_api_keys : Bool → Tables → Result (List ApiKey)
list_api_keys fails t = driver fails (sort (λ a b. leb a.id b.id) t.api_keys)

abbrev pub of_key : ℕ → UpstreamProxy → Bool
of_key id u = elim u.source_api_key_id [ none ↦ false | some k ↦ k == id ]

abbrev pub is_synced : ℕ → UpstreamProxy → Bool
is_synced id u = of_key id u && str_eq u.source source_webshare

-- The Boolean that comes with the list says that the list is not empty.
unfoldable pub has_referencing_users_for_key : Bool → ℕ → Tables → Result (List ReferencingUser)
has_referencing_users_for_key fails id t =
    driver fails (referencing_users (of_key id) t.upstream_proxies t.local_users)

unfoldable pub drop_key : ℕ → List ApiKey → List ApiKey
drop_key id [] = []
drop_key id (k ∷ keys) = if k.id == id then drop_key id keys else k ∷ drop_key id keys

-- An upstream of the key: the foreign key refuses the deletion.
unfoldable pub key_referenced : ℕ → Rows → Bool
key_referenced id [] = false
key_referenced id (u ∷ us) = of_key id u || key_referenced id us

abbrev pub key_delete_entry : ℕ → AuditLogEntry
key_delete_entry now = record {
  at = now;
  actor = codes "cli";
  action = codes "key_delete";
  username = [];
  old_upstream_id = [];
  new_upstream_id = [];
}

-- The driver calls of DeleteApiKey that fail, and its reading of the clock.
pub record KeyDeletion : Type 0 where
  pub refs_fail : Bool
  pub begin_fails : Bool
  pub upstreams_fail : Bool
  pub key_fails : Bool
  pub audit_fails : Bool
  pub commit_fails : Bool
  pub now : ℕ

abbrev pub unless_key_used : List ReferencingUser → Result {0} Unit
unless_key_used [] = ok tt
unless_key_used (r ∷ refs) = err (key_in_use (r ∷ refs))

abbrev pub delete_key_row : ℕ → Tables → Result Tables
delete_key_row id t =
    if key_referenced id t.upstream_proxies
    then err constraint
    else ok (record t { api_keys = drop_key id t.api_keys })

-- DeleteApiKey: the check is a query of its own, on the tables `seen`; others may write before the
-- transaction begins on `t`. The tables are replaced only by the commit.
unfoldable pub delete_api_key : KeyDeletion → ℕ → Tables → Tables → Result Tables
delete_api_key run id seen t = do
  refs ← has_referencing_users_for_key run.refs_fail id seen
  free ← unless_key_used refs
  begun ← driver run.begin_fails t
  emptied ← driver run.upstreams_fail (delete_rows (is_synced id) begun)
  called ← driver run.key_fails emptied
  dropped ← delete_key_row id called
  logged ←
      driver run.audit_fails
        (record dropped { audit_log = dropped.audit_log ++ key_delete_entry run.now ∷ [] })
  driver run.commit_fails logged
