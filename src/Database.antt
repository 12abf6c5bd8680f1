-- ===== src/Database.antt =====
-- The database under all its writers: the operations of internal/repo, the transaction of SyncKey and
-- the mapping changes of the admin API, in any order. Each statement or transaction that writes is one
-- step; what a deletion has read before it may be out of date, so it is any tables.
pub mod Integrity
pub mod Ports
pub mod Dialable
pub mod Tests
use pio.Base.{ℕ, ◌≡◌, refl, subst, sym, Bool, true, false, Option, List, GoString, arith}
use pio.Base.Int.{ℤ}
use pio.Model.{Settings, AuditLogEntry}
use pio.Store.{Tables, ok, update_local_user_mapping}
use pio.Repo.Manual.{
  ManualProxyInput, insert_manual_proxy, update_manual_proxy, delete_manual_proxy,
  ensure_default_upstream, update_upstream_latency, update_upstream_display_name,
}
use pio.Repo.Keys.{KeyDeletion, insert_api_key, mark_api_key_sync_error, delete_api_key}
use pio.Repo.Users.{
  insert_local_user, update_local_user_password, delete_local_user, reorder_local_users,
}
use pio.Repo.Config.{
  update_settings, set_proxy_enabled, save_api_port, set_universal_proxy_password,
}
use pio.Sync.Reconcile.{Proxy, SyncRun, reconcile}

pub data Step (t t' : Tables) : Type 0 where
  seeding : (fails : Bool) (now : ℕ) → ensure_default_upstream fails now t ≡ ok t' → Step t t'
  inserting_manual :
      (encrypt : GoString → GoString → Option GoString) (fails : Bool) (random : Option (List ℕ))
      (now : ℕ) (input : ManualProxyInput) (id : GoString)
      → insert_manual_proxy encrypt fails random now input t ≡ ok (id, t')
      → Step t t'
  updating_manual :
      (encrypt : GoString → GoString → Option GoString) (get_fails fails : Bool) (id : GoString)
      (input : ManualProxyInput)
      → update_manual_proxy encrypt get_fails fails id input t ≡ ok t'
      → Step t t'
  deleting_manual :
      (get_fails refs_fail fails : Bool) (id : GoString) (read seen : Tables)
      → delete_manual_proxy get_fails refs_fail fails id read seen t ≡ ok t'
      → Step t t'
  naming :
      (fails : Bool) (id name : GoString)
      → update_upstream_display_name fails id name t ≡ ok t'
      → Step t t'
  probing :
      (fails : Bool) (id : GoString) (ms : ℤ) (at : ℕ)
      → update_upstream_latency fails id ms at t ≡ ok t'
      → Step t t'
  adding_key :
      (encrypt : GoString → GoString → Option GoString) (fails : Bool) (id now : ℕ)
      (label plain : GoString) (given : ℕ)
      → insert_api_key encrypt fails id now label plain t ≡ ok (given, t')
      → Step t t'
  deleting_key :
      (run : KeyDeletion) (id : ℕ) (seen : Tables)
      → delete_api_key run id seen t ≡ ok t'
      → Step t t'
  syncing :
      (sha1 : List ℕ → List ℕ) (encrypt : ℕ → GoString → GoString → Option GoString) (run : SyncRun)
      (key : ℕ) (label : GoString) (proxies : List Proxy)
      → reconcile sha1 encrypt run key label proxies t ≡ ok t'
      → Step t t'
  failing_sync :
      (fails : Bool) (id : ℕ) (message : GoString)
      → mark_api_key_sync_error fails id message t ≡ ok t'
      → Step t t'
  adding_user :
      (fails : Bool) (name pw notes : GoString) (now : ℕ)
      → insert_local_user fails name pw notes now t ≡ ok t'
      → Step t t'
  setting_password :
      (fails : Bool) (name pw : GoString) (now : ℕ)
      → update_local_user_password fails name pw now t ≡ ok t'
      → Step t t'
  mapping :
      (fails : Bool) (name : GoString) (id : Option GoString) (now : ℕ)
      → update_local_user_mapping fails name id now t ≡ ok t'
      → Step t t'
  deleting_user :
      (fails : Bool) (name : GoString) → delete_local_user fails name t ≡ ok t' → Step t t'
  reordering :
      (begin_fails : Bool) (fails : ℕ → Bool) (commit_fails : Bool) (names : List GoString)
      → reorder_local_users begin_fails fails commit_fails names t ≡ ok t'
      → Step t t'
  configuring : (fails : Bool) (s : Settings) → update_settings fails s t ≡ ok t' → Step t t'
  switching : (fails enabled : Bool) → set_proxy_enabled fails enabled t ≡ ok t' → Step t t'
  binding : (fails : Bool) (port : ℤ) → save_api_port fails port t ≡ ok t' → Step t t'
  sealing :
      (encrypt : GoString → GoString → Option GoString) (fails : Bool) (plaintext : GoString)
      → set_universal_proxy_password encrypt fails plaintext t ≡ ok t'
      → Step t t'
  logging : (entries : List AuditLogEntry) → t' ≡ record t { audit_log = entries } → Step t t'

pub data Reach (t : Tables) : Tables → Type 0 where
  here : Reach t t
  later : {t' t'' : Tables} → Reach t t' → Step t' t'' → Reach t t''
