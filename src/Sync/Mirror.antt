-- ===== src/Sync/Mirror.antt =====
-- A committed sync mirrors the answer of the fetch, and leaves the rows of every other source.
use pio.Base.{
  ◌⊎◌, inl, inr, ℕ, ◌≡◌, ◌∙◌, refl, sym, ap, Bool, true, false, Option, Bool-cases, subst, List,
  GoString, arith,
}
use pio.Store.{Tables, ok, err, Error, Result, Result-cases}
use pio.Repo.Keys.{mark_api_key_sync_success, mark_api_key_sync_error, get_api_key_plain}
use pio.Repo.Sound.{UniqueIds}
use pio.Sync.{sanitize_label}
use pio.Sync.Reconcile.{
  Proxy, SyncRun, incoming_ids, member, load_existing_upstreams, reconcile, committed, fetched,
  sync_key,
}
use pio.Sync.Refreshed.{AllAnswered, cleaned_rows}
use pio.Sync.Outcomes.{reconcile-Reconciled}
use pio.Sync.Exact.{synced, known-load, synced-delete_stale, sync_proxies-synced}
use pio.Sync.Others.{others, unique-foreign, others-delete_stale, others-sync_proxies}

pub marked_rows :
    (fails : Bool) (key at : ℕ) (t t' : Tables)
    → mark_api_key_sync_success fails key at t ≡ ok t'
    → (t'.upstream_proxies ≡ t.upstream_proxies) × (t'.local_users ≡ t.local_users)
unfolding mark_api_key_sync_success
marked_rows true key at t t' h = absurd (ground arith)
marked_rows false key at t t' h = (ground arith, ground arith)

module _ (sha1 : List ℕ → List ℕ) (encrypt : ℕ → GoString → GoString → Option GoString)
    (run : SyncRun) (key : ℕ) (label : GoString) (proxies : List Proxy) where
  -- After a committed sync, the key has a synced row with an id exactly when a proxy of the answer has
  -- that stable id.
  pub reconcile_mirrors :
      (t t' : Tables)
      → reconcile sha1 encrypt run key label proxies t ≡ ok t'
      → (j : GoString) → synced key j t'.upstream_proxies ≡ member j (incoming_ids sha1 proxies)
  reconcile_mirrors t t' h j =
      let o = reconcile-Reconciled sha1 encrypt run key label proxies t t' h in
      let existing = load_existing_upstreams key t.upstream_proxies in
      let loaded = known-load key j t.upstream_proxies in
      let looped =
        sync_proxies-synced sha1 encrypt run key (sanitize_label label) existing 0 proxies _
          o.synced_state o.looped (λ l e. sym (known-load key l t.upstream_proxies) ∙ e) j in
      let cleaned =
        synced-delete_stale key run (incoming_ids sha1 proxies) existing o.synced_state.1 o.cleaned
          o.deleted j in
      let marked =
        ap (synced key j) (marked_rows run.mark_fails key run.now o.cleaned t' o.marked).0 in
      ground (arith, loaded, looped, cleaned, marked)

  -- When upstream ids are unique, a committed sync leaves the rows of other keys and of other sources
  -- as they were.
  pub reconcile_leaves_others :
      (t t' : Tables)
      → UniqueIds t.upstream_proxies
      → reconcile sha1 encrypt run key label proxies t ≡ ok t'
      → others key t'.upstream_proxies ≡ others key t.upstream_proxies
  reconcile_leaves_others t t' u h =
      let o = reconcile-Reconciled sha1 encrypt run key label proxies t t' h in
      let existing = load_existing_upstreams key t.upstream_proxies in
      let (looped, own) =
        others-sync_proxies sha1 encrypt run key (sanitize_label label) existing 0 proxies _
          o.synced_state o.looped
          (λ j k.
            unique-foreign key j t.upstream_proxies u
              (sym (known-load key j t.upstream_proxies) ∙ k)) in
      let cleaned =
        others-delete_stale key run (incoming_ids sha1 proxies) existing o.synced_state.1 o.cleaned
          o.deleted own in
      let marked =
        ap (others key) (marked_rows run.mark_fails key run.now o.cleaned t' o.marked).0 in
      marked ∙ cleaned ∙ looped

  -- After a committed sync, the id of each proxy of the answer has a row with the data of the answer.
  pub reconcile_refreshes :
      (t t' : Tables)
      → reconcile sha1 encrypt run key label proxies t ≡ ok t'
      → AllAnswered sha1 encrypt run proxies t'.upstream_proxies
  reconcile_refreshes t t' h =
      let o = reconcile-Reconciled sha1 encrypt run key label proxies t t' h in
      subst (AllAnswered sha1 encrypt run proxies)
        (sym (marked_rows run.mark_fails key run.now o.cleaned t' o.marked).0)
        (cleaned_rows sha1 encrypt run key label proxies t t' o)

abbrev SameRows : Tables → Tables → Type 0
SameRows t' t = (t'.upstream_proxies ≡ t.upstream_proxies) × (t'.local_users ≡ t.local_users)

module _ (sha1 : List ℕ → List ℕ) (encrypt : ℕ → GoString → GoString → Option GoString)
    (decrypt : GoString → GoString → Option GoString) (fetch : GoString → GoString ⊎ List Proxy)
    (run : SyncRun) (key : ℕ) where
  -- What SyncKey has done, by how it ended: the key's synced rows are those of the fetched proxies
  -- with their data, and all other rows stay, or no upstream and no user has changed. `start` are the
  -- tables that the key is read from, `t` those at the start of the transaction.
  abbrev pub Settled : Tables → Tables → Result {0} Unit × Tables → Type 0
  Settled start t (ok done, t') =
      (plain label : GoString) × (proxies : List Proxy) × (get_api_key_plain decrypt run.load_fails
          key start
        ≡ ok (plain, label))
      × (fetch plain ≡ inr proxies)
      × ((j : GoString) → synced key j t'.upstream_proxies ≡ member j (incoming_ids sha1 proxies))
      × AllAnswered sha1 encrypt run proxies t'.upstream_proxies
      × (others key t'.upstream_proxies ≡ others key t.upstream_proxies)
  Settled start t (err e, t') = SameRows t' t

  fetched-Settled :
      (plain label : GoString) (answer : GoString ⊎ List Proxy) (start t : Tables)
      → get_api_key_plain decrypt run.load_fails key start ≡ ok (plain, label)
      → fetch plain ≡ answer
      → UniqueIds t.upstream_proxies
      → Settled start t (fetched sha1 encrypt decrypt fetch run key label answer t)
  unfolding mark_api_key_sync_error
  fetched-Settled plain label (inl message) start t read f u =
      elim (Bool-cases run.mark_error_fails) [
        | inl y ↦ rw y (refl, refl)
        | inr n ↦ rw n (refl, refl)
      ]
  fetched-Settled plain label (inr proxies) start t read f u =
      elim (Result-cases (reconcile sha1 encrypt run key label proxies t)) [
        | inr (e, bad) ↦ rw bad (refl, refl)
        | inl (t', done) ↦
            subst (λ r. Settled start t (committed r t)) (sym done)
              (
                plain,
                label,
                proxies,
                read,
                f,
                reconcile_mirrors sha1 encrypt run key label proxies t t' done,
                reconcile_refreshes sha1 encrypt run key label proxies t t' done,
                reconcile_leaves_others sha1 encrypt run key label proxies t t' u done,
              )
      ]

  -- When upstream ids are unique at the start of its transaction, SyncKey ends in one of three ways.
  -- It succeeds: the key's synced rows then have the stable ids of the proxies that were fetched with
  -- the key and no other, the id of each proxy has a row with the address, port, credentials (the
  -- password encrypted) and place of a proxy of that id and the time of the sync, and the rows of other
  -- keys and sources are as they were. It fails after the key was read: then no upstream and no user
  -- has changed. Or the key cannot be read: then nothing has changed.
  pub sync_key-Settled :
      (t : Tables)
      → UniqueIds (run.meanwhile t).upstream_proxies
      → Settled t (run.meanwhile t) (sync_key sha1 encrypt decrypt fetch run key t)
        ⊎ ((e : Error) × (sync_key sha1 encrypt decrypt fetch run key t ≡ (err e, t)))
  unfolding sync_key
  sync_key-Settled t u = elim (Result-cases (get_api_key_plain decrypt run.load_fails key t)) [
    | inr (e, bad) ↦ inr (e, rw (sync_key, bad) refl)
    | inl ((plain, label), read) ↦
        let reached : sync_key sha1 encrypt decrypt fetch run key t
            ≡ fetched sha1 encrypt decrypt fetch run key label (fetch plain) (run.meanwhile t) =
          rw (sync_key, read) refl in
        inl (
          subst (Settled t (run.meanwhile t)) (sym reached)
            (fetched-Settled plain label (fetch plain) t (run.meanwhile t) read refl u))
  ]
