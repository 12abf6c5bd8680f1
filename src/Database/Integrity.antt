-- ===== src/Database/Integrity.antt =====
-- No sequence of writes breaks the constraints of the database.
use pio.Base.{◌≡◌, Bool, true, false, arith, inl, inr, GoString, Option}
use pio.Base.Int.{ℤ}
use pio.Model.{Settings}
use pio.Store.{Tables, ok, Result-cases}
use pio.Repo.Manual.{manual_row}
use pio.Repo.Config.{
  update_settings, set_proxy_enabled, save_api_port, set_universal_proxy_password, universal_column,
}
use pio.Repo.Inserting.{Inserted-IsSound}
use pio.Repo.Sound.{IsSound}
use pio.Repo.Sound.Users.{
  insert_local_user-IsSound, update_local_user_password-IsSound, delete_local_user-IsSound,
  update_local_user_mapping-IsSound, reorder_local_users-IsSound,
}
use pio.Repo.Sound.Proxies.{
  insert_manual_proxy-Inserted, update_manual_proxy-Rewritten, Rewritten-IsSound,
  update_upstream_latency-IsSound, update_upstream_display_name-IsSound,
  ensure_default_upstream-IsSound,
}
use pio.Repo.Sound.Keys.{
  mark_api_key_sync_error-IsSound, insert_api_key-IsSound, delete_api_key-IsSound,
  delete_manual_proxy-IsSound,
}
use pio.Sync.Sound.{reconcile-IsSound}
use pio.Database.{
  Step, Reach, here, later, seeding, inserting_manual, updating_manual, deleting_manual, naming,
  probing, adding_key, deleting_key, syncing, failing_sync, adding_user, setting_password, mapping,
  deleting_user, reordering, configuring, switching, binding, sealing, logging,
}

-- The tables that the constraints read are the same.
abbrev pub SameData : Tables → Tables → Type 0
SameData t t' =
    (t'.upstream_proxies ≡ t.upstream_proxies)
    × (t'.local_users ≡ t.local_users)
    × (t'.api_keys ≡ t.api_keys)

SameData-IsSound : (t t' : Tables) → SameData t t' → IsSound t → IsSound t'
SameData-IsSound t t' e s = record {
  ids = rw e.0 s.ids;
  names = rw e.0 s.names;
  users = rw e.1 s.users;
  mappings = rw e.0 (rw e.1 s.mappings);
  keys = rw e.0 (rw e.2 s.keys);
}

pub update_settings-SameData :
    (fails : Bool) (s : Settings) (t t' : Tables)
    → update_settings fails s t ≡ ok t'
    → SameData t t'
unfolding update_settings
update_settings-SameData true s t t' h = absurd (ground arith)
update_settings-SameData false s t t' h = ground arith

pub set_proxy_enabled-SameData :
    (fails enabled : Bool) (t t' : Tables)
    → set_proxy_enabled fails enabled t ≡ ok t'
    → SameData t t'
unfolding set_proxy_enabled
set_proxy_enabled-SameData true enabled t t' h = absurd (ground arith)
set_proxy_enabled-SameData false enabled t t' h = ground arith

pub save_api_port-SameData :
    (fails : Bool) (port : ℤ) (t t' : Tables) → save_api_port fails port t ≡ ok t' → SameData t t'
unfolding save_api_port
save_api_port-SameData true port t t' h = absurd (ground arith)
save_api_port-SameData false port t t' h = ground arith

pub set_universal_proxy_password-SameData :
    (encrypt : GoString → GoString → Option GoString) (fails : Bool) (plaintext : GoString)
    (t t' : Tables)
    → set_universal_proxy_password encrypt fails plaintext t ≡ ok t'
    → SameData t t'
unfolding set_universal_proxy_password
set_universal_proxy_password-SameData encrypt fails plaintext t t' h =
    elim (Result-cases (universal_column encrypt plaintext)) [
      | inr (e, bad) ↦ absurd (ground arith)
      | inl (enc, sealed) ↦ ground arith
    ]

pub Step-IsSound : (t t' : Tables) → Step t t' → IsSound t → IsSound t'
Step-IsSound t t' (seeding fails now h) s = ensure_default_upstream-IsSound fails now t t' h s
Step-IsSound t t' (inserting_manual encrypt fails random now input id h) s =
    let (enc, v, e, i) = insert_manual_proxy-Inserted encrypt fails random now input t t' id h in
    Inserted-IsSound (manual_row id input enc now) t t' i s
Step-IsSound t t' (updating_manual encrypt get_fails fails id input h) s =
    Rewritten-IsSound encrypt id input t t'
      (update_manual_proxy-Rewritten encrypt get_fails fails id input t t' h) s
Step-IsSound t t' (deleting_manual g r f id read seen h) s =
    delete_manual_proxy-IsSound g r f id read seen t t' h s
Step-IsSound t t' (naming fails id name h) s =
    update_upstream_display_name-IsSound fails id name t t' h s
Step-IsSound t t' (probing fails id ms at h) s =
    update_upstream_latency-IsSound fails id ms at t t' h s
Step-IsSound t t' (adding_key encrypt fails id now label plain given h) s =
    insert_api_key-IsSound encrypt fails id now label plain t t' given h s
Step-IsSound t t' (deleting_key run id seen h) s = delete_api_key-IsSound run id seen t t' h s
Step-IsSound t t' (syncing sha1 encrypt run key label proxies h) s =
    reconcile-IsSound sha1 encrypt run key label proxies t t' h s
Step-IsSound t t' (failing_sync fails id message h) s =
    mark_api_key_sync_error-IsSound fails id message t t' h s
Step-IsSound t t' (adding_user fails name pw notes now h) s =
    insert_local_user-IsSound fails name pw notes now t t' h s
Step-IsSound t t' (setting_password fails name pw now h) s =
    update_local_user_password-IsSound fails name pw now t t' h s
Step-IsSound t t' (mapping fails name id now h) s =
    update_local_user_mapping-IsSound fails name id now t t' h s
Step-IsSound t t' (deleting_user fails name h) s = delete_local_user-IsSound fails name t t' h s
Step-IsSound t t' (reordering b f c names h) s = reorder_local_users-IsSound b f c names t t' h s
Step-IsSound t t' (configuring fails x h) s =
    SameData-IsSound t t' (update_settings-SameData fails x t t' h) s
Step-IsSound t t' (switching fails enabled h) s =
    SameData-IsSound t t' (set_proxy_enabled-SameData fails enabled t t' h) s
Step-IsSound t t' (binding fails port h) s =
    SameData-IsSound t t' (save_api_port-SameData fails port t t' h) s
Step-IsSound t t' (sealing encrypt fails plaintext h) s =
    SameData-IsSound t t' (set_universal_proxy_password-SameData encrypt fails plaintext t t' h) s
Step-IsSound t t' (logging entries h) s = SameData-IsSound t t' (ground arith) s

-- Whatever the operations of the repository, the syncs and the mapping changes do, in any order: the
-- ids of upstreams, the names of manual proxies and the user names stay unique, each mapping refers
-- to an upstream and each owner of an upstream to an API key, when this is so at the start.
pub Reach-IsSound : (t t' : Tables) → Reach t t' → IsSound t → IsSound t'
Reach-IsSound t t' here s = s
Reach-IsSound t t' (later {t' = mid} r step) s = Step-IsSound mid t' step (Reach-IsSound t mid r s)
