-- ===== src/Database/Dialable.antt =====
-- Every write keeps the manual proxies dialable.
use pio.Base.{
  ℕ, ◌≡◌, subst, sym, Bool, true, false, Option, List, GoString, arith, inl, inr, Option-cases,
}
use pio.Base.Int.{ℤ}
use pio.Model.{UpstreamProxy}
use pio.Store.{Tables, ok, ok_eq, Result-cases, update_local_user_mapping}
use pio.Repo.Rows.{change_row}
use pio.Repo.Manual.{rewrite, is_manual_id, update_upstream_latency, update_upstream_display_name}
use pio.Repo.Keys.{is_synced, insert_api_key, mark_api_key_sync_error, api_key_aad}
use pio.Repo.Users.{
  insert_local_user, update_local_user_password, delete_local_user, reorder_local_users,
  write_order,
}
use pio.Repo.Rows.{delete_rows}
use pio.Repo.Sound.Keys.{delete_manual_proxy-deleted, delete_api_key-KeyDeleted}
use pio.Repo.Sound.{IsSound}
use pio.Repo.Sound.Proxies.{insert_manual_proxy-Inserted, update_manual_proxy-Rewritten}
use pio.Sync.Mirror.{reconcile_leaves_others}
use pio.Database.{
  Step, Reach, here, later, seeding, inserting_manual, updating_manual, deleting_manual, naming,
  probing, adding_key, deleting_key, syncing, failing_sync, adding_user, setting_password, mapping,
  deleting_user, reordering, configuring, switching, binding, sealing, logging,
}
use pio.Database.Integrity.{
  update_settings-SameData, set_proxy_enabled-SameData, save_api_port-SameData,
  set_universal_proxy_password-SameData, Reach-IsSound,
}
use pio.Database.Ports.{
  PortsOk, validated, change_row-PortsOk, rewrite-CanDial, kept_rows-PortsOk, same_others-PortsOk,
  ensure_default_upstream-PortsOk,
}

-- The writes to other tables.
abbrev SameRows : Tables → Tables → Type 0
SameRows t t' = t'.upstream_proxies ≡ t.upstream_proxies

update_local_user_mapping-SameRows :
    (fails : Bool) (name : GoString) (id : Option GoString) (now : ℕ) (t t' : Tables)
    → update_local_user_mapping fails name id now t ≡ ok t'
    → SameRows t t'
unfolding update_local_user_mapping
update_local_user_mapping-SameRows fails name id now t t' h = ground arith

insert_local_user-SameRows :
    (fails : Bool) (name pw notes : GoString) (now : ℕ) (t t' : Tables)
    → insert_local_user fails name pw notes now t ≡ ok t'
    → SameRows t t'
unfolding insert_local_user
insert_local_user-SameRows fails name pw notes now t t' h = ground arith

update_local_user_password-SameRows :
    (fails : Bool) (name pw : GoString) (now : ℕ) (t t' : Tables)
    → update_local_user_password fails name pw now t ≡ ok t'
    → SameRows t t'
unfolding update_local_user_password
update_local_user_password-SameRows fails name pw now t t' h = ground arith

delete_local_user-SameRows :
    (fails : Bool) (name : GoString) (t t' : Tables)
    → delete_local_user fails name t ≡ ok t'
    → SameRows t t'
unfolding delete_local_user
delete_local_user-SameRows fails name t t' h = ground arith

reorder_local_users-SameRows :
    (b : Bool) (f : ℕ → Bool) (c : Bool) (names : List GoString) (t t' : Tables)
    → reorder_local_users b f c names t ≡ ok t'
    → SameRows t t'
unfolding reorder_local_users
reorder_local_users-SameRows b f c names t t' h =
    elim (Result-cases (write_order f 0 names t.local_users)) [
      | inr (e, bad) ↦ absurd (ground arith)
      | inl (us, written) ↦ ground arith
    ]

insert_api_key-SameRows :
    (encrypt : GoString → GoString → Option GoString) (fails : Bool) (id now : ℕ)
    (label plain : GoString) (t t' : Tables) (given : ℕ)
    → insert_api_key encrypt fails id now label plain t ≡ ok (given, t')
    → SameRows t t'
unfolding insert_api_key
insert_api_key-SameRows encrypt fails id now label plain t t' given h =
    elim (Option-cases (encrypt api_key_aad plain)) [
      | inl bad ↦ absurd (ground arith)
      | inr (enc, e) ↦ ground arith
    ]

mark_api_key_sync_error-SameRows :
    (fails : Bool) (id : ℕ) (message : GoString) (t t' : Tables)
    → mark_api_key_sync_error fails id message t ≡ ok t'
    → SameRows t t'
unfolding mark_api_key_sync_error
mark_api_key_sync_error-SameRows fails id message t t' h = ground arith

update_upstream_latency-PortsOk :
    (fails : Bool) (id : GoString) (ms : ℤ) (at : ℕ) (t t' : Tables)
    → update_upstream_latency fails id ms at t ≡ ok t'
    → PortsOk t.upstream_proxies
    → PortsOk t'.upstream_proxies
unfolding update_upstream_latency
update_upstream_latency-PortsOk true id ms at t t' h p = absurd (ground arith)
update_upstream_latency-PortsOk false id ms at t t' h p =
    subst (λ x. PortsOk x.upstream_proxies) (ok_eq h)
      (change_row-PortsOk id _ (λ u c. c) t.upstream_proxies p)

update_upstream_display_name-PortsOk :
    (fails : Bool) (id name : GoString) (t t' : Tables)
    → update_upstream_display_name fails id name t ≡ ok t'
    → PortsOk t.upstream_proxies
    → PortsOk t'.upstream_proxies
unfolding update_upstream_display_name
update_upstream_display_name-PortsOk true id name t t' h p = absurd (ground arith)
update_upstream_display_name-PortsOk false id name t t' h p =
    let f : UpstreamProxy → UpstreamProxy = λ u. record u { display_name = name } in
    let made : change_row id f t.upstream_proxies ≡ t'.upstream_proxies = ground arith in
    subst PortsOk made (change_row-PortsOk id f (λ u c. c) t.upstream_proxies p)

Step-PortsOk :
    (t t' : Tables)
    → Step t t'
    → IsSound t
    → PortsOk t.upstream_proxies
    → PortsOk t'.upstream_proxies
Step-PortsOk t t' (seeding fails now h) s p = ensure_default_upstream-PortsOk fails now t t' h p
Step-PortsOk t t' (inserting_manual encrypt fails random now input id h) s p =
    let (enc, v, e, i) = insert_manual_proxy-Inserted encrypt fails random now input t t' id h in
    subst (λ x. PortsOk x.upstream_proxies) (sym i.result) (λ m. validated input v, p)
Step-PortsOk t t' (updating_manual encrypt get_fails fails id input h) s p =
    let r = update_manual_proxy-Rewritten encrypt get_fails fails id input t t' h in
    subst (λ x. PortsOk x.upstream_proxies) (sym r.result)
      (change_row-PortsOk id (rewrite input r.enc) (rewrite-CanDial input r.enc r.valid)
        t.upstream_proxies p)
Step-PortsOk t t' (deleting_manual g r f id read seen h) s p =
    subst (λ x. PortsOk x.upstream_proxies)
      (delete_manual_proxy-deleted g r f id read seen t t' h).1
      (unfold delete_rows in kept_rows-PortsOk (is_manual_id id) t.upstream_proxies p)
Step-PortsOk t t' (naming fails id name h) s p =
    update_upstream_display_name-PortsOk fails id name t t' h p
Step-PortsOk t t' (probing fails id ms at h) s p =
    update_upstream_latency-PortsOk fails id ms at t t' h p
Step-PortsOk t t' (adding_key encrypt fails id now label plain given h) s p =
    rw (insert_api_key-SameRows encrypt fails id now label plain t t' given h) p
Step-PortsOk t t' (deleting_key run id seen h) s p =
    subst (λ x. PortsOk x.upstream_proxies) (delete_api_key-KeyDeleted run id seen t t' h).made
      (unfold delete_rows in kept_rows-PortsOk (is_synced id) t.upstream_proxies p)
Step-PortsOk t t' (syncing sha1 encrypt run key label proxies h) s p =
    same_others-PortsOk key t.upstream_proxies t'.upstream_proxies
      (reconcile_leaves_others sha1 encrypt run key label proxies t t' s.ids h) p
Step-PortsOk t t' (failing_sync fails id message h) s p =
    rw (mark_api_key_sync_error-SameRows fails id message t t' h) p
Step-PortsOk t t' (adding_user fails name pw notes now h) s p =
    rw (insert_local_user-SameRows fails name pw notes now t t' h) p
Step-PortsOk t t' (setting_password fails name pw now h) s p =
    rw (update_local_user_password-SameRows fails name pw now t t' h) p
Step-PortsOk t t' (mapping fails name id now h) s p =
    rw (update_local_user_mapping-SameRows fails name id now t t' h) p
Step-PortsOk t t' (deleting_user fails name h) s p =
    rw (delete_local_user-SameRows fails name t t' h) p
Step-PortsOk t t' (reordering b f c names h) s p =
    rw (reorder_local_users-SameRows b f c names t t' h) p
Step-PortsOk t t' (configuring fails x h) s p = rw (update_settings-SameData fails x t t' h).0 p
Step-PortsOk t t' (switching fails enabled h) s p =
    rw (set_proxy_enabled-SameData fails enabled t t' h).0 p
Step-PortsOk t t' (binding fails port h) s p = rw (save_api_port-SameData fails port t t' h).0 p
Step-PortsOk t t' (sealing encrypt fails plaintext h) s p =
    rw (set_universal_proxy_password-SameData encrypt fails plaintext t t' h).0 p
Step-PortsOk t t' (logging entries h) s p = rw h p

-- Whatever the writers of the database do, in any order, from tables that keep their constraints: if
-- each manual proxy has a port from 1 to 65535 and a protocol of the three at the start, each has at
-- the end.
pub Reach-PortsOk :
    (t t' : Tables)
    → Reach t t'
    → IsSound t
    → PortsOk t.upstream_proxies
    → PortsOk t'.upstream_proxies
Reach-PortsOk t t' here s p = p
Reach-PortsOk t t' (later {t' = mid} r step) s p =
    Step-PortsOk mid t' step (Reach-IsSound t mid r s) (Reach-PortsOk t mid r s p)
