-- ===== src/Routing/Fresh.antt =====
-- The cancel groups that a build hands out are new ones, and different users get different groups.
use pio.Base.{
  ℕ, ◌≤◌, ◌<◌, ◌≡◌, ◌≢◌, ◌∙◌, refl, sym, ap, Bool, some, List, [], ◌∷◌, GoString, str_discrete,
  arith, ite, ◌⊎◌, subst, some_eq, Option-cases, inl, inr, [],
}
use pio.Base.Map.{Map, find, put, find-put, put-UniqueKeys, UniqueKeys}
use pio.Model.{ResolvedUpstream, LocalUser}
use pio.Routing.State.{Groups, ResolvedUser, new_cancel_group}
use pio.Routing.Build.{resolve_user, resolve_users}
use pio.Routing.Rebuild.{refresh, rebuild_users}
use pio.Routing.Users.{Outcome, find-rebuild_users, find-rebuild_users_none}

pub refresh_group :
    (ups : Map GoString ResolvedUpstream) (ru : ResolvedUser)
    → (refresh ups ru).cancel_group ≡ ru.cancel_group
unfolding refresh
refresh_group ups ru = ground arith

resolve_user_group :
    (ups : Map GoString ResolvedUpstream) (u : LocalUser) (k : ℕ)
    → (resolve_user ups u k).cancel_group ≡ k
unfolding resolve_user
resolve_user_group ups u k = ground arith

-- A reading of a map with one more entry is the new entry or an old reading.
pub put_cases :
    {V : Type 0} (j name : GoString) (v w : V) (m : Map GoString V)
    → find str_discrete name (put str_discrete j v m) ≡ some w
    → ((j ≡ name) × (v ≡ w)) ⊎ ((j ≢ name) × (find str_discrete name m ≡ some w))
put_cases j name v w m h = go (str_discrete j name) (sym (find-put str_discrete j name v m) ∙ h)
  where
    go :
        (d : Dec (j ≡ name))
        → ite d (some v) (find str_discrete name m) ≡ some w
        → ((j ≡ name) × (v ≡ w)) ⊎ ((j ≢ name) × (find str_discrete name m ≡ some w))
    go (yes p) e = inl (p, some_eq e)
    go (no p) e = inr (p, e)

module _ (ups : Map GoString ResolvedUpstream) where
  pub cancelled-resolve_users :
      (us : List LocalUser) (g : Groups) → (resolve_users ups us g).1.cancelled ≡ g.cancelled
  unfolding resolve_users new_cancel_group
  cancelled-resolve_users [] g = refl
  cancelled-resolve_users (u ∷ us) g = cancelled-resolve_users us (new_cancel_group g).1

  pub next-resolve_users :
      (us : List LocalUser) (g : Groups) → g.next ≤ (resolve_users ups us g).1.next
  unfolding resolve_users new_cancel_group
  next-resolve_users [] g = omega arith
  next-resolve_users (u ∷ us) g = omega (arith, next-resolve_users us (new_cancel_group g).1)

  pub resolve_users-UniqueKeys :
      (us : List LocalUser) (g : Groups) → UniqueKeys str_discrete (resolve_users ups us g).0
  unfolding resolve_users new_cancel_group
  resolve_users-UniqueKeys [] g = tt
  resolve_users-UniqueKeys (u ∷ us) g =
      put-UniqueKeys str_discrete u.username _ _
        (resolve_users-UniqueKeys us (new_cancel_group g).1)

  pub resolve_users_range :
      (us : List LocalUser) (g : Groups) (name : GoString) (u : ResolvedUser)
      → find str_discrete name (resolve_users ups us g).0 ≡ some u
      → (g.next ≤ u.cancel_group) × (u.cancel_group < (resolve_users ups us g).1.next)
  unfolding resolve_users new_cancel_group
  resolve_users_range [] g name u h = absurd (unfold find in ground arith)
  resolve_users_range (r ∷ us) g name u h = elim (put_cases r.username name _ u _ h) [
    | inl (p, e) ↦ rw (← e) (
        rw (resolve_user_group ups r g.next)
          (omega (arith, next-resolve_users us (new_cancel_group g).1)))
    | inr (p, e) ↦
        let (a, b) = resolve_users_range us (new_cancel_group g).1 name u e in (omega arith, b)
  ]

  pub resolve_users_distinct :
      (us : List LocalUser) (g : Groups) (n m : GoString) (u v : ResolvedUser)
      → find str_discrete n (resolve_users ups us g).0 ≡ some u
      → find str_discrete m (resolve_users ups us g).0 ≡ some v
      → u.cancel_group ≡ v.cancel_group
      → n ≡ m
  unfolding resolve_users new_cancel_group
  resolve_users_distinct [] g n m u v hu hv e = absurd (unfold find in ground arith)
  resolve_users_distinct (r ∷ us) g n m u v hu hv e =
      let g' = (new_cancel_group g).1 in
      elim (put_cases r.username n _ u _ hu) [
        | inl (p, eu) ↦ elim (put_cases r.username m _ v _ hv) [
          | inl (q, ev) ↦ sym p ∙ q
          | inr (q, ev) ↦ absurd (
              omega (
                arith,
                resolve_users_range us g' m v ev,
                ap (λ (x : ResolvedUser). x.cancel_group) eu,
                resolve_user_group ups r g.next,
              ))
        ]
        | inr (p, eu) ↦ elim (put_cases r.username m _ v _ hv) [
          | inl (q, ev) ↦ absurd (
              omega (
                arith,
                resolve_users_range us g' n u eu,
                ap (λ (x : ResolvedUser). x.cancel_group) ev,
                resolve_user_group ups r g.next,
              ))
          | inr (q, ev) ↦ resolve_users_distinct us g' n m u v eu ev e
        ]
      ]

module _ (rotates : ResolvedUser → Bool) (ups : Map GoString ResolvedUpstream) where
  -- A user of the new snapshot has the group of its old record or a new one.
  pub rebuild_users_range :
      (us : Map GoString ResolvedUser) (g : Groups) (name : GoString) (u : ResolvedUser)
      → find str_discrete name (rebuild_users rotates ups us g).users ≡ some u
      → (ru : ResolvedUser) × (find str_discrete name us ≡ some ru)
        × Outcome
            (rotates ru)
            (refresh ups ru)
            u
            g.next
            (rebuild_users rotates ups us g).groups.next
  rebuild_users_range us g name u h = elim (Option-cases (find str_discrete name us)) [
    | inl e ↦ absurd (ground (arith, find-rebuild_users_none rotates ups name us g e))
    | inr (ru, e) ↦
        let (nru, en, o) = find-rebuild_users rotates ups name us g ru e in
        (
          ru,
          e,
          subst
              (λ v.
                Outcome (rotates ru) (refresh ups ru) v g.next
                  (rebuild_users rotates ups us g).groups.next)
              (some_eq (sym en ∙ h)) o,
        )
  ]
