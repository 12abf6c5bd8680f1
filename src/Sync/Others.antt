-- ===== src/Sync/Others.antt =====
-- What a sync of a key leaves: the rows of other keys and of other sources.
use pio.Base.{
  ℕ, ◌+◌, ◌≡◌, ◌∙◌, refl, subst, sym, Bool, true, false, Option, none, some, List, [], ◌∷◌,
  GoString, str_discrete, str_eq, arith, inl, inr, Bool-cases, ◌&&◌, ◌||◌, not, if◌then◌else◌,
  ==_iff,
}
use pio.Model.{UpstreamProxy}
use pio.Store.{Tables, ok, bind-ok, ok_eq}
use pio.Repo.Rows.{Rows, has_row, doomed_id, change_row, kept_rows, delete_rows}
use pio.Repo.Keys.{is_synced}
use pio.Repo.Sound.{KeepsKeys, UniqueIds}
use pio.Sync.{SeqAllocator}
use pio.Sync.Reconcile.{
  Proxy, Existing, SyncRun, refreshed, id_of, member, sync_proxy, sync_proxies, is_stale,
  delete_stale,
}
use pio.Sync.Turns.{Turn, refreshing, inserting, sync_proxy-Turn}
use pio.Sync.Exact.{known, synced}

module _ (key : ℕ) where
  -- The rows that no sync of the key has made.
  abbrev pub others : Rows → Rows
  others rows = kept_rows (is_synced key) rows

  -- A row with the id that no sync of the key has made.
  abbrev pub foreign : GoString → Rows → Bool
  foreign j rows = doomed_id (λ u. not (is_synced key u)) j rows

  module _ (id : GoString) (f : UpstreamProxy → UpstreamProxy) (keeps : KeepsKeys f) where
    others-change_row :
        (rows : Rows) → foreign id rows ≡ false → others (change_row id f rows) ≡ others rows
    unfolding kept_rows change_row doomed_id
    others-change_row [] h = refl
    others-change_row (u ∷ us) h = ground (arith, keeps u, others-change_row us)

    foreign-change_row :
        (j : GoString) (rows : Rows) → foreign j (change_row id f rows) ≡ foreign j rows
    unfolding change_row doomed_id
    foreign-change_row j [] = refl
    foreign-change_row j (u ∷ us) = ground (arith, keeps u, foreign-change_row j us)

  others-kept_rows :
      (d : GoString) (rows : Rows)
      → foreign d rows ≡ false
      → others (kept_rows (is_stale d) rows) ≡ others rows
  unfolding kept_rows doomed_id
  others-kept_rows d [] h = refl
  others-kept_rows d (u ∷ us) h = ground (arith, others-kept_rows d us)

  foreign-kept_rows :
      (d j : GoString) (rows : Rows)
      → foreign j rows ≡ false
      → foreign j (kept_rows (is_stale d) rows) ≡ false
  unfolding kept_rows doomed_id
  foreign-kept_rows d j [] h = refl
  foreign-kept_rows d j (u ∷ us) h = ground (arith, foreign-kept_rows d j us)

  has_row-foreign : (j : GoString) (rows : Rows) → has_row j rows ≡ false → foreign j rows ≡ false
  unfolding has_row doomed_id
  has_row-foreign j [] h = refl
  has_row-foreign j (u ∷ us) h = ground (arith, has_row-foreign j us)

  has_row-synced : (j : GoString) (rows : Rows) → has_row j rows ≡ false → synced key j rows ≡ false
  unfolding has_row doomed_id
  has_row-synced j [] h = refl
  has_row-synced j (u ∷ us) h = ground (arith, has_row-synced j us)

  -- With unique ids, the id of a row of the key is no other row's.
  pub unique-foreign :
      (j : GoString) (rows : Rows)
      → UniqueIds rows
      → synced key j rows ≡ true
      → foreign j rows ≡ false
  unfolding doomed_id
  unique-foreign j [] u h = refl
  unique-foreign j (r ∷ rows) u h = elim (str_discrete r.id j) [
    | yes p ↦ ground (arith, has_row-foreign j rows, has_row-synced j rows, u.0)
    | no p ↦ ground (arith, unique-foreign j rows u.1)
  ]

  -- No id of the existing rows is one of another row.
  abbrev pub Own : Existing → Rows → Type 0
  Own existing rows = (j : GoString) → known j existing ≡ true → foreign j rows ≡ false

  pub others-delete_stale :
      (run : SyncRun) (incoming : List GoString) (existing : Existing) (t t' : Tables)
      → delete_stale run incoming existing t ≡ ok t'
      → Own existing t.upstream_proxies
      → others t'.upstream_proxies ≡ others t.upstream_proxies
  unfolding delete_stale delete_rows pio.Base.Map.find
  others-delete_stale run incoming [] t t' h own = ground arith
  others-delete_stale run incoming ((id, e) ∷ existing) t t' h own =
      let own' : Own existing t.upstream_proxies = λ j k. ground (arith, own j) in
      elim (Bool-cases (member id incoming)) [
        | inl m ↦ others-delete_stale run incoming existing t t' (ground arith) own'
        | inr n ↦ elim (Bool-cases (run.delete_fails id)) [
          | inl y ↦ absurd (ground arith)
          | inr f ↦
              others-delete_stale run incoming existing (delete_rows (is_stale id) t) t'
                (ground arith) (λ j k. foreign-kept_rows id j t.upstream_proxies (own' j k))
              ∙ others-kept_rows id t.upstream_proxies (ground (arith, own id))
        ]
      ]

module _ (sha1 : List ℕ → List ℕ) (encrypt : ℕ → GoString → GoString → Option GoString)
    (run : SyncRun) (key : ℕ) (sanitized_label : GoString) (existing : Existing) where
  abbrev Left : SeqAllocator × Tables → SeqAllocator × Tables → Type 0
  Left s s' =
      (others key s'.1.upstream_proxies ≡ others key s.1.upstream_proxies)
      × Own key existing s'.1.upstream_proxies

  Turn-Left :
      (i : ℕ) (p : Proxy) (s s' : SeqAllocator × Tables)
      → Turn sha1 encrypt run key sanitized_label existing i p s s'
      → Own key existing s.1.upstream_proxies
      → Left s s'
  unfolding kept_rows doomed_id
  Turn-Left i p s s' (refreshing row enc sealed f e) own =
      let id = id_of sha1 p in
      let change = refreshed p enc sanitized_label row.display_name run.now in
      subst (Left s) (sym e) (
        others-change_row key id change (λ u. (refl, refl, refl)) s.1.upstream_proxies
            (own id (ground arith)),
        λ j k.
            foreign-change_row key id change (λ u. (refl, refl, refl)) j s.1.upstream_proxies
            ∙ own j k,
      )
  Turn-Left i p s s' (inserting n enc sealed f e ins) own =
      let same = (==_iff key key).1 refl in
      subst (λ t. Left s (s'.0, t)) (sym ins.result)
        (ground (arith, same), λ j k. ground (arith, same, own j k))

  pub others-sync_proxies :
      (i : ℕ) (ps : List Proxy) (s s' : SeqAllocator × Tables)
      → sync_proxies sha1 encrypt run key sanitized_label existing i ps s ≡ ok s'
      → Own key existing s.1.upstream_proxies
      → Left s s'
  unfolding sync_proxies
  others-sync_proxies i [] s s' h own = subst (Left s) (ok_eq h) (refl, own)
  others-sync_proxies i (p ∷ ps) s s' h own =
      let (mid, first, rest) =
        bind-ok (sync_proxy sha1 encrypt run key sanitized_label existing i p s)
          (sync_proxies sha1 encrypt run key sanitized_label existing (i + 1) ps) h in
      let turn =
        Turn-Left i p s mid
          (sync_proxy-Turn sha1 encrypt run key sanitized_label existing i p s mid first) own in
      let later = others-sync_proxies (i + 1) ps mid s' rest turn.1 in (later.0 ∙ turn.0, later.1)
