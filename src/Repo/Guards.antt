-- ===== src/Repo/Guards.antt =====
-- internal/repo/upstreams.go: the checks for mapped users before DeleteManualProxy and DeleteApiKey.
use pio.Base.{
  All-map, ◌⊎◌, ℕ, ◌≡◌, refl, subst, Bool, true, false, some, List, [], ◌∷◌, GoString, str_discrete,
  str_eq, arith, inl, inr, All, Bool-cases, Option-cases,
}
use pio.Model.{UpstreamProxy, LocalUser}
use pio.Store.{Tables, ok}
use pio.Repo.Rows.{
  Rows, row_of, has_row, doomed_id, kept_rows, set_null, null_mappings, delete_rows,
  referencing_users,
}
use pio.Repo.Manual.{is_manual_id, delete_manual_proxy}
use pio.Repo.Keys.{KeyDeletion, of_key, is_synced, drop_key, delete_api_key}
use pio.Repo.Sound.{UniqueIds}
use pio.Repo.Sound.Keys.{delete_manual_proxy-deleted, delete_api_key-KeyDeleted}

-- No user is mapped to a row that is to go.
abbrev pub Unmapped : (UpstreamProxy → Bool) → Rows → List LocalUser → Type 0
Unmapped q rows us =
    All (λ u. (i : GoString) → u.upstream_proxy_id ≡ some i → doomed_id q i rows ≡ false) us

module _ (p q : UpstreamProxy → Bool) (covers : (u : UpstreamProxy) → q u ≡ true → p u ≡ true) where
  has_row-doomed_id :
      (i : GoString) (rows : Rows) → has_row i rows ≡ false → doomed_id q i rows ≡ false
  unfolding has_row doomed_id
  has_row-doomed_id i [] h = refl
  has_row-doomed_id i (u ∷ us) h = ground (arith, has_row-doomed_id i us)

  -- With unique ids, the row under a doomed id is the doomed one.
  row_of_doomed :
      (i : GoString) (rows : Rows)
      → UniqueIds rows
      → doomed_id q i rows ≡ true
      → (u : UpstreamProxy) × (row_of i rows ≡ some u) × (p u ≡ true)
  unfolding doomed_id row_of
  row_of_doomed i [] s h = absurd (ground arith)
  row_of_doomed i (u ∷ us) s h = elim (str_discrete u.id i) [
    | yes e ↦ (u, ground arith, covers u (ground (arith, has_row-doomed_id i us, s.0)))
    | no ne ↦ let (v, r, y) = row_of_doomed i us s.1 (ground arith) in (v, ground arith, y)
  ]

  unreferenced :
      (rows : Rows) (us : List LocalUser)
      → UniqueIds rows
      → referencing_users p rows us ≡ []
      → Unmapped q rows us
  unfolding referencing_users
  unreferenced rows [] s h = tt
  unreferenced rows (lu ∷ us) s h = (
    λ i e. elim (Bool-cases (doomed_id q i rows)) [
      | inr f ↦ f
      | inl d ↦ let (v, r, y) = row_of_doomed i rows s d in absurd (ground arith)
    ],
    unreferenced rows us s (ground arith),
  )

abbrev on_id : GoString → UpstreamProxy → Bool
on_id id u = str_eq u.id id

-- No user was mapped to the row of the id when the guard looked, if that row is one that is to go.
abbrev pub Unseen : (UpstreamProxy → Bool) → GoString → Tables → Type 0
Unseen q i seen =
    All (λ v. v.upstream_proxy_id ≡ some i → doomed_id q i seen.upstream_proxies ≡ false)
      seen.local_users

-- The user keeps its mapping, or it is mapped to a row that goes and was mapped to it behind the
-- guard's back.
abbrev pub KeptOrLate : (UpstreamProxy → Bool) → Tables → Tables → LocalUser → Type 0
KeptOrLate q seen t u =
    (set_null (λ i. doomed_id q i t.upstream_proxies) u.upstream_proxy_id ≡ u.upstream_proxy_id)
    ⊎ ((i : GoString) × (u.upstream_proxy_id ≡ some i)
        × (doomed_id q i t.upstream_proxies ≡ true)
        × Unseen q i seen)

-- What a deletion has done that its guard let through: the rows are gone, the mappings to them are
-- NULL, and every user that lost its mapping was mapped after the guard had looked.
abbrev pub Deletes : (UpstreamProxy → Bool) → Tables → Tables → Rows → List LocalUser → Type 0
Deletes q seen t rows users =
    (rows ≡ kept_rows q t.upstream_proxies)
    × (users ≡ null_mappings (λ i. doomed_id q i t.upstream_proxies) t.local_users)
    × All (KeptOrLate q seen t) t.local_users

late :
    (q : UpstreamProxy → Bool) (seen t : Tables) (us : List LocalUser)
    → Unmapped q seen.upstream_proxies seen.local_users
    → All (KeptOrLate q seen t) us
late q seen t [] free = tt
late q seen t (u ∷ us) free = (
  elim (Option-cases u.upstream_proxy_id) [
    | inl e ↦ inl (rw e refl)
    | inr (i, e) ↦ elim (Bool-cases (doomed_id q i t.upstream_proxies)) [
      | inr n ↦ inl (rw (e, n) refl)
      | inl y ↦ inr (
        i,
        e,
        y,
        All-map
            (λ v.
              (j : GoString)
              → v.upstream_proxy_id ≡ some j
              → doomed_id q j seen.upstream_proxies ≡ false)
            (λ v. v.upstream_proxy_id ≡ some i → doomed_id q i seen.upstream_proxies ≡ false)
            seen.local_users (λ v h. h i) free,
      )
    ]
  ],
  late q seen t us free,
)

guarded-Deletes :
    (p q : UpstreamProxy → Bool)
    → ((u : UpstreamProxy) → q u ≡ true → p u ≡ true)
    → (seen t : Tables) → UniqueIds seen.upstream_proxies
    → referencing_users p seen.upstream_proxies seen.local_users ≡ []
    → Deletes q seen t (delete_rows q t).upstream_proxies (delete_rows q t).local_users
unfolding delete_rows
guarded-Deletes p q covers seen t s h = (
  refl,
  refl,
  late q seen t t.local_users (unreferenced p q covers seen.upstream_proxies seen.local_users s h),
)

-- A DeleteManualProxy that succeeds deletes the manual row of the id and sets the mappings to it to
-- NULL. When upstream ids are unique as its guard looks, every user that is mapped to the row was
-- mapped to it after that: the guard, which is no part of one transaction with the DELETE, saw none.
pub delete_manual_proxy-Deletes :
    (get_fails refs_fail fails : Bool) (id : GoString) (read seen t t' : Tables)
    → UniqueIds seen.upstream_proxies
    → delete_manual_proxy get_fails refs_fail fails id read seen t ≡ ok t'
    → Deletes (is_manual_id id) seen t t'.upstream_proxies t'.local_users
delete_manual_proxy-Deletes get_fails refs_fail fails id read seen t t' s h =
    let (free, made) = delete_manual_proxy-deleted get_fails refs_fail fails id read seen t t' h in
    subst (λ x. Deletes (is_manual_id id) seen t x.upstream_proxies x.local_users) made
      (guarded-Deletes (on_id id) (is_manual_id id) (λ u y. ground arith) seen t s free)

-- A DeleteApiKey that succeeds deletes the rows that syncs of the key have made and the key, and sets
-- the mappings to those rows to NULL. When upstream ids are unique as its guard looks, every user that
-- is mapped to such a row was mapped to it after that: the guard saw none.
pub delete_api_key-Deletes :
    (run : KeyDeletion) (id : ℕ) (seen t t' : Tables)
    → UniqueIds seen.upstream_proxies
    → delete_api_key run id seen t ≡ ok t'
    → Deletes (is_synced id) seen t t'.upstream_proxies t'.local_users
      × (t'.api_keys ≡ drop_key id t.api_keys)
unfolding delete_rows
delete_api_key-Deletes run id seen t t' s h =
    let d = delete_api_key-KeyDeleted run id seen t t' h in
    subst
      (λ x.
        Deletes (is_synced id) seen t x.upstream_proxies x.local_users
        × (x.api_keys ≡ drop_key id t.api_keys))
      d.made
      (guarded-Deletes (of_key id) (is_synced id) (λ u y. ground arith) seen t s d.unseen, refl)
