-- ===== src/Routing/Users.antt =====
-- What the user loop of a rebuild makes of each user, and which cancel groups it hands out.
use pio.Base.{
  ℕ, ◌≤◌, ◌<◌, ◌≡◌, refl, Bool, true, false, Option, none, some, [], ◌∷◌, GoString, str_discrete,
  arith, ite, ◌⊎◌, subst, some_eq, Bool-cases, inl, inr,
}
use pio.Base.Map.{Map, find, find-put, put-UniqueKeys, UniqueKeys}
use pio.Model.{ResolvedUpstream}
use pio.Routing.State.{Groups, ResolvedUser, new_cancel_group}
use pio.Routing.Rebuild.{Rebuilt, refresh, rebuild_users}

-- Kept with its old group, or given a group from `lo` on and below `hi`.
abbrev pub Outcome : Bool → ResolvedUser → ResolvedUser → ℕ → ℕ → Type 0
Outcome rotated kept now lo hi =
    ((rotated ≡ false) × (now ≡ kept))
    ⊎ ((rotated ≡ true)
        × (now ≡ record kept { cancel_group = now.cancel_group })
        × (lo ≤ now.cancel_group)
        × (now.cancel_group < hi))

Outcome-widen :
    {rotated : Bool} {kept now : ResolvedUser} (lo lo' hi : ℕ)
    → lo ≤ lo'
    → Outcome rotated kept now lo' hi
    → Outcome rotated kept now lo hi
Outcome-widen lo lo' hi h (inl k) = inl k
Outcome-widen lo lo' hi h (inr (r, e, a, b)) = inr (r, e, omega arith, b)

module _ (rotates : ResolvedUser → Bool) (ups : Map GoString ResolvedUpstream) where
  abbrev run : Map GoString ResolvedUser → Groups → Rebuilt
  run us g = rebuild_users rotates ups us g

  pub cancelled-rebuild_users :
      (us : Map GoString ResolvedUser) (g : Groups) → (run us g).groups.cancelled ≡ g.cancelled
  unfolding rebuild_users new_cancel_group
  cancelled-rebuild_users [] g = refl
  cancelled-rebuild_users ((j, ru) ∷ us) g =
      ground
        (arith, cancelled-rebuild_users us g, cancelled-rebuild_users us (new_cancel_group g).1)

  pub next-rebuild_users :
      (us : Map GoString ResolvedUser) (g : Groups) → g.next ≤ (run us g).groups.next
  unfolding rebuild_users new_cancel_group
  next-rebuild_users [] g = omega arith
  next-rebuild_users ((j, ru) ∷ us) g =
      ground (arith, next-rebuild_users us g, next-rebuild_users us (new_cancel_group g).1)

  pub rebuild_users-UniqueKeys :
      (us : Map GoString ResolvedUser) (g : Groups) → UniqueKeys str_discrete (run us g).users
  unfolding rebuild_users new_cancel_group
  rebuild_users-UniqueKeys [] g = tt
  rebuild_users-UniqueKeys ((j, ru) ∷ us) g = elim (Bool-cases (rotates ru)) [
    | inl r ↦
        rw r
          (put-UniqueKeys str_discrete j _ _ (rebuild_users-UniqueKeys us (new_cancel_group g).1))
    | inr r ↦ rw r (put-UniqueKeys str_discrete j _ _ (rebuild_users-UniqueKeys us g))
  ]

  pub find-cons_rotated :
      (name j : GoString) (ru : ResolvedUser) (us : Map GoString ResolvedUser) (g : Groups)
      → rotates ru ≡ true
      → find str_discrete name (run ((j, ru) ∷ us) g).users
        ≡ ite
            (str_discrete j name)
            (some (record (refresh ups ru) { cancel_group = g.next }))
            (find str_discrete name (run us (new_cancel_group g).1).users)
  unfolding rebuild_users new_cancel_group
  find-cons_rotated name j ru us g r = rw r (find-put str_discrete j name _ _)

  pub find-cons_kept :
      (name j : GoString) (ru : ResolvedUser) (us : Map GoString ResolvedUser) (g : Groups)
      → rotates ru ≡ false
      → find str_discrete name (run ((j, ru) ∷ us) g).users
        ≡ ite
            (str_discrete j name)
            (some (refresh ups ru))
            (find str_discrete name (run us g).users)
  unfolding rebuild_users
  find-cons_kept name j ru us g r = rw r (find-put str_discrete j name _ _)

  pub groups-cons_rotated :
      (j : GoString) (ru : ResolvedUser) (us : Map GoString ResolvedUser) (g : Groups)
      → rotates ru ≡ true
      → (run ((j, ru) ∷ us) g).groups ≡ (run us (new_cancel_group g).1).groups
  unfolding rebuild_users new_cancel_group
  groups-cons_rotated j ru us g r = rw r

  pub groups-cons_kept :
      (j : GoString) (ru : ResolvedUser) (us : Map GoString ResolvedUser) (g : Groups)
      → rotates ru ≡ false
      → (run ((j, ru) ∷ us) g).groups ≡ (run us g).groups
  unfolding rebuild_users new_cancel_group
  groups-cons_kept j ru us g r = rw r

  pub find-rebuild_users_none :
      (name : GoString) (us : Map GoString ResolvedUser) (g : Groups)
      → find str_discrete name us ≡ none
      → find str_discrete name (run us g).users ≡ none
  unfolding find rebuild_users new_cancel_group
  find-rebuild_users_none name [] g h = refl
  find-rebuild_users_none name ((j, ru) ∷ us) g h = elim (Bool-cases (rotates ru)) [
    | inl r ↦ ground (
      arith,
      find-cons_rotated name j ru us g r,
      find-rebuild_users_none name us (new_cancel_group g).1,
    )
    | inr r ↦ ground (arith, find-cons_kept name j ru us g r, find-rebuild_users_none name us g)
  ]

  abbrev Found : Option ResolvedUser → ResolvedUser → ℕ → ℕ → Type 0
  Found o ru lo hi =
      (nru : ResolvedUser) × (o ≡ some nru) × Outcome (rotates ru) (refresh ups ru) nru lo hi

  Found-widen :
      {o : Option ResolvedUser} {ru : ResolvedUser} (lo lo' hi : ℕ)
      → lo ≤ lo'
      → Found o ru lo' hi
      → Found o ru lo hi
  Found-widen lo lo' hi h (nru, e, k) = (nru, e, Outcome-widen lo lo' hi h k)

  module _ (name j : GoString) (ru ru' : ResolvedUser) (us : Map GoString ResolvedUser)
      (g : Groups) where
    Found-rotated :
        rotates ru' ≡ true
        → find str_discrete name ((j, ru') ∷ us) ≡ some ru
        → (find str_discrete name us ≡ some ru
            → Found
                (find str_discrete name (run us (new_cancel_group g).1).users)
                ru
                (new_cancel_group g).1.next
                (run us (new_cancel_group g).1).groups.next)
        → Found
            (find str_discrete name (run ((j, ru') ∷ us) g).users)
            ru
            g.next
            (run ((j, ru') ∷ us) g).groups.next
    unfolding find new_cancel_group
    Found-rotated r h ih =
        let g' = (new_cancel_group g).1 in
        let hi = (run us g').groups.next in
        let fresh : ResolvedUser = record (refresh ups ru') { cancel_group = g.next } in
        rw (find-cons_rotated name j ru' us g r, groups-cons_rotated j ru' us g r)
          ((elim (str_discrete j name)
              as (λ x.
                ite x (some ru') (find str_discrete name us) ≡ some ru
                → Found (ite x (some fresh) (find str_discrete name (run us g').users)) ru g.next
                    hi) [
                      | yes p ↦ λ e.
                          subst (λ v. Found (some fresh) v g.next hi) (some_eq e)
                            (
                              fresh,
                              refl,
                              inr (r, refl, omega arith, omega (arith, next-rebuild_users us g')),
                            )
                      | no p ↦ λ e. Found-widen g.next g'.next hi (omega arith) (ih e)
                    ])
            h)

    Found-kept :
        rotates ru' ≡ false
        → find str_discrete name ((j, ru') ∷ us) ≡ some ru
        → (find str_discrete name us ≡ some ru
            → Found (find str_discrete name (run us g).users) ru g.next (run us g).groups.next)
        → Found
            (find str_discrete name (run ((j, ru') ∷ us) g).users)
            ru
            g.next
            (run ((j, ru') ∷ us) g).groups.next
    unfolding find
    Found-kept r h ih =
        let hi = (run us g).groups.next in
        rw (find-cons_kept name j ru' us g r, groups-cons_kept j ru' us g r)
          ((elim (str_discrete j name)
              as (λ x.
                ite x (some ru') (find str_discrete name us) ≡ some ru
                → Found (ite x (some (refresh ups ru')) (find str_discrete name (run us g).users))
                    ru g.next hi) [
                      | yes p ↦ λ e.
                          subst (λ v. Found (some (refresh ups ru')) v g.next hi) (some_eq e)
                            (refresh ups ru', refl, inl (r, refl))
                      | no p ↦ ih
                    ])
            h)

  -- Every user of the old snapshot is in the new one, refreshed, with its old group or a new one.
  pub find-rebuild_users :
      (name : GoString) (us : Map GoString ResolvedUser) (g : Groups) (ru : ResolvedUser)
      → find str_discrete name us ≡ some ru
      → (nru : ResolvedUser) × (find str_discrete name (run us g).users ≡ some nru)
        × Outcome (rotates ru) (refresh ups ru) nru g.next (run us g).groups.next
  find-rebuild_users name [] g ru h = absurd (unfold find in ground arith)
  find-rebuild_users name ((j, ru') ∷ us) g ru h = elim (Bool-cases (rotates ru')) [
    | inl r ↦
        Found-rotated name j ru ru' us g r h (find-rebuild_users name us (new_cancel_group g).1 ru)
    | inr r ↦ Found-kept name j ru ru' us g r h (find-rebuild_users name us g ru)
  ]
