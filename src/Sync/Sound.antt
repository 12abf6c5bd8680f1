-- ===== src/Sync/Sound.antt =====
-- A committed sync keeps the constraints of the tables.
use pio.Base.{
  ℕ, ◌+◌, ◌≡◌, refl, subst, sym, Option, List, [], ◌∷◌, GoString, arith, inl, inr, Bool-cases,
}
use pio.Store.{Tables, ok, bind-ok, ok_eq}
use pio.Repo.Rows.{delete_rows}
use pio.Repo.Inserting.{Inserted-IsSound}
use pio.Repo.Deleting.{delete_rows-IsSound}
use pio.Repo.Sound.{IsSound}
use pio.Repo.Sound.Proxies.{change_row-IsSound}
use pio.Repo.Sound.Keys.{mark_api_key_sync_success-IsSound}
use pio.Sync.{SeqAllocator, sanitize_label}
use pio.Sync.Reconcile.{
  Proxy, Existing, SyncRun, refreshed, id_of, incoming_ids, member, sync_proxy, sync_proxies,
  load_existing_upstreams, is_stale, delete_stale, reconcile,
}
use pio.Sync.Turns.{Turn, refreshing, inserting, sync_proxy-Turn}
use pio.Sync.Outcomes.{reconcile-Reconciled}

delete_stale-IsSound :
    (run : SyncRun) (incoming : List GoString) (existing : Existing) (t t' : Tables)
    → delete_stale run incoming existing t ≡ ok t'
    → IsSound t
    → IsSound t'
unfolding delete_stale
delete_stale-IsSound run incoming [] t t' h s = subst IsSound (ok_eq h) s
delete_stale-IsSound run incoming ((id, e) ∷ existing) t t' h s =
    elim (Bool-cases (member id incoming)) [
      | inl m ↦ delete_stale-IsSound run incoming existing t t' (ground arith) s
      | inr n ↦ elim (Bool-cases (run.delete_fails id)) [
        | inl y ↦ absurd (ground arith)
        | inr f ↦
            delete_stale-IsSound run incoming existing (delete_rows (is_stale id) t) t'
              (ground arith) (delete_rows-IsSound (is_stale id) t s)
      ]
    ]

module _ (sha1 : List ℕ → List ℕ) (encrypt : ℕ → GoString → GoString → Option GoString)
    (run : SyncRun) (key : ℕ) (sanitized_label : GoString) (existing : Existing) where
  Turn-IsSound :
      (i : ℕ) (p : Proxy) (s s' : SeqAllocator × Tables)
      → Turn sha1 encrypt run key sanitized_label existing i p s s'
      → IsSound s.1
      → IsSound s'.1
  Turn-IsSound i p s s' (refreshing row enc sealed f e) sound =
      subst (λ z. IsSound z.1) (sym e)
        (change_row-IsSound (id_of sha1 p)
          (refreshed p enc sanitized_label row.display_name run.now) (λ u. (refl, refl, refl))
          (λ u. refl) s.1 sound)
  Turn-IsSound i p s s' (inserting n enc sealed f e ins) sound =
      Inserted-IsSound _ s.1 s'.1 ins sound

  sync_proxies-IsSound :
      (i : ℕ) (ps : List Proxy) (s s' : SeqAllocator × Tables)
      → sync_proxies sha1 encrypt run key sanitized_label existing i ps s ≡ ok s'
      → IsSound s.1
      → IsSound s'.1
  unfolding sync_proxies
  sync_proxies-IsSound i [] s s' h sound = subst (λ z. IsSound z.1) (ok_eq h) sound
  sync_proxies-IsSound i (p ∷ ps) s s' h sound =
      let (mid, first, rest) =
        bind-ok (sync_proxy sha1 encrypt run key sanitized_label existing i p s)
          (sync_proxies sha1 encrypt run key sanitized_label existing (i + 1) ps) h in
      sync_proxies-IsSound (i + 1) ps mid s' rest (
        Turn-IsSound i p s mid
          (sync_proxy-Turn sha1 encrypt run key sanitized_label existing i p s mid first) sound)

pub reconcile-IsSound :
    (sha1 : List ℕ → List ℕ) (encrypt : ℕ → GoString → GoString → Option GoString) (run : SyncRun)
    (key : ℕ) (label : GoString) (proxies : List Proxy) (t t' : Tables)
    → reconcile sha1 encrypt run key label proxies t ≡ ok t'
    → IsSound t
    → IsSound t'
reconcile-IsSound sha1 encrypt run key label proxies t t' h s =
    let o = reconcile-Reconciled sha1 encrypt run key label proxies t t' h in
    let existing = load_existing_upstreams key t.upstream_proxies in
    let looped =
      sync_proxies-IsSound sha1 encrypt run key (sanitize_label label) existing 0 proxies _
        o.synced_state o.looped s in
    let cleaned =
      delete_stale-IsSound run (incoming_ids sha1 proxies) existing o.synced_state.1 o.cleaned
        o.deleted looped in
    mark_api_key_sync_success-IsSound run.mark_fails key run.now o.cleaned t' o.marked cleaned
