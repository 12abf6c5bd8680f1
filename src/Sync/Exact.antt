-- ===== src/Sync/Exact.antt =====
-- The rows of the key after a sync are the ones of the answer.
use pio.Base.{
  ℕ, ◌+◌, ◌≡◌, refl, subst, sym, Bool, true, false, Option, none, some, List, [], ◌∷◌, GoString,
  str_discrete, str_eq, arith, inl, inr, Bool-cases, ◌&&◌, ◌||◌, not, ==_iff,
}
use pio.Base.Map.{find, find-put}
use pio.Model.{UpstreamProxy}
use pio.Store.{Tables, ok, bind-ok}
use pio.Repo.Rows.{Rows, doomed_id, change_row, kept_rows, delete_rows}
use pio.Repo.Keys.{is_synced}
use pio.Repo.Sound.{KeepsKeys}
use pio.Sync.{SeqAllocator}
use pio.Sync.Reconcile.{
  Proxy, Existing, SyncRun, refreshed, id_of, incoming_ids, member, sync_proxy, sync_proxies,
  load_existing_upstreams, is_stale, delete_stale,
}
use pio.Sync.Turns.{Turn, refreshing, inserting, sync_proxy-Turn}

abbrev pub known : GoString → Existing → Bool
known j existing = elim (find str_discrete j existing) [ none ↦ false | some _ ↦ true ]

module _ (key : ℕ) where
  -- A row with the id that a sync of the key has made.
  abbrev pub synced : GoString → Rows → Bool
  synced j rows = doomed_id (is_synced key) j rows

  pub synced-change_row :
      (id : GoString) (f : UpstreamProxy → UpstreamProxy)
      → KeepsKeys f
      → (j : GoString) (rows : Rows) → synced j (change_row id f rows) ≡ synced j rows
  unfolding doomed_id change_row
  synced-change_row id f keeps j [] = refl
  synced-change_row id f keeps j (u ∷ us) =
      ground (arith, keeps u, synced-change_row id f keeps j us)

  synced-kept_rows :
      (d j : GoString) (rows : Rows)
      → synced j (kept_rows (is_stale d) rows) ≡ synced j rows && not (str_eq d j)
  unfolding doomed_id kept_rows
  synced-kept_rows d j [] = refl
  synced-kept_rows d j (u ∷ us) = ground (arith, synced-kept_rows d j us)

  pub known-load :
      (j : GoString) (rows : Rows) → known j (load_existing_upstreams key rows) ≡ synced j rows
  unfolding doomed_id load_existing_upstreams find
  known-load j [] = refl
  known-load j (u ∷ us) = ground (
    arith,
    known-load j us,
    find-put str_discrete u.id j
        (record { id = u.id; display_name = u.display_name; country_code = u.country_code })
        (load_existing_upstreams key us),
  )

  -- The stale rows are gone, the others are as they were.
  pub synced-delete_stale :
      (run : SyncRun) (incoming : List GoString) (existing : Existing) (t t' : Tables)
      → delete_stale run incoming existing t ≡ ok t'
      → (j : GoString)
      → synced j t'.upstream_proxies
        ≡ synced j t.upstream_proxies && not (known j existing && not (member j incoming))
  unfolding delete_stale delete_rows find
  synced-delete_stale run incoming [] t t' h j = ground arith
  synced-delete_stale run incoming ((id, e) ∷ existing) t t' h j =
      elim (Bool-cases (member id incoming)) [
        | inl m ↦ ground (arith, synced-delete_stale run incoming existing t t' (ground arith) j)
        | inr n ↦ elim (Bool-cases (run.delete_fails id)) [
          | inl y ↦ absurd (ground arith)
          | inr f ↦ ground (
            arith,
            synced-delete_stale run incoming existing (delete_rows (is_stale id) t) t'
                (ground arith) j,
            synced-kept_rows id j t.upstream_proxies,
          )
        ]
      ]

abbrev pub Known : ℕ → Existing → Tables → Type 0
Known key existing t =
    (j : GoString) → known j existing ≡ true → synced key j t.upstream_proxies ≡ true

module _ (sha1 : List ℕ → List ℕ) (encrypt : ℕ → GoString → GoString → Option GoString)
    (run : SyncRun) (key : ℕ) (sanitized_label : GoString) (existing : Existing) where
  -- A turn adds the id of its proxy to the rows of the key.
  pub Turn-synced :
      (i : ℕ) (p : Proxy) (s s' : SeqAllocator × Tables)
      → Turn sha1 encrypt run key sanitized_label existing i p s s'
      → Known key existing s.1
      → (j : GoString)
      → synced key j s'.1.upstream_proxies
        ≡ synced key j s.1.upstream_proxies || str_eq (id_of sha1 p) j
  unfolding doomed_id
  Turn-synced i p s s' (refreshing row enc sealed f e) k j = ground (
    arith,
    synced-change_row key (id_of sha1 p) (refreshed p enc sanitized_label row.display_name run.now)
        (λ u. (refl, refl, refl)) j s.1.upstream_proxies,
    k j,
  )
  Turn-synced i p s s' (inserting n enc sealed f e ins) k j =
      subst
        (λ t.
          synced key j t.upstream_proxies
          ≡ synced key j s.1.upstream_proxies || str_eq (id_of sha1 p) j)
        (sym ins.result) (ground (arith, (==_iff key key).1 refl))

  -- The whole loop adds the incoming ids.
  pub sync_proxies-synced :
      (i : ℕ) (ps : List Proxy) (s s' : SeqAllocator × Tables)
      → sync_proxies sha1 encrypt run key sanitized_label existing i ps s ≡ ok s'
      → Known key existing s.1
      → (j : GoString)
      → synced key j s'.1.upstream_proxies
        ≡ synced key j s.1.upstream_proxies || member j (incoming_ids sha1 ps)
  unfolding sync_proxies member incoming_ids
  sync_proxies-synced i [] s s' h k j = ground arith
  sync_proxies-synced i (p ∷ ps) s s' h k j =
      let (mid, first, rest) =
        bind-ok (sync_proxy sha1 encrypt run key sanitized_label existing i p s)
          (sync_proxies sha1 encrypt run key sanitized_label existing (i + 1) ps) h in
      let turn =
        Turn-synced i p s mid
          (sync_proxy-Turn sha1 encrypt run key sanitized_label existing i p s mid first) k in
      ground (
        arith,
        turn j,
        sync_proxies-synced (i + 1) ps mid s' rest (λ l e. ground (arith, turn l, k l e)) j,
      )
