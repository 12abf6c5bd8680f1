-- ===== src/Routing/Distinct.antt =====
-- A rebuild never gives one new cancel group to two users.
use pio.Base.{
  ℕ, ◌+◌, ◌≤◌, ◌<◌, ◌≡◌, ◌≢◌, ◌∙◌, refl, sym, ap, Bool, some, [], ◌∷◌, GoString, str_discrete,
  arith, ite, ◌⊎◌, Bool-cases, inl, inr, All, some_eq,
}
use pio.Base.Map.{Map, find, find_of_All}
use pio.Model.{ResolvedUpstream}
use pio.Routing.State.{Groups, ResolvedUser, new_cancel_group}
use pio.Routing.Rebuild.{rebuild_users}
use pio.Routing.Users.{find-cons_rotated, find-cons_kept}
use pio.Routing.Fresh.{rebuild_users_range, refresh_group}

abbrev pub Below : ℕ → Map GoString ResolvedUser → Type 0
Below b us = All (λ e. e.1.cancel_group < b) us

ite_cases :
    {j name : GoString} {v w : ResolvedUser} (o : _) (d : Dec (j ≡ name))
    → ite d (some v) o ≡ some w
    → ((j ≡ name) × (v ≡ w)) ⊎ ((j ≢ name) × (o ≡ some w))
ite_cases o (yes p) e = inl (p, some_eq e)
ite_cases o (no p) e = inr (p, e)

module _ (rotates : ResolvedUser → Bool) (ups : Map GoString ResolvedUpstream) (b : ℕ) where
  abbrev after : Map GoString ResolvedUser → Groups → Map GoString ResolvedUser
  after us g = (rebuild_users rotates ups us g).users

  -- A group of the new snapshot is an old one or not below the next one.
  old_or_new :
      (us : Map GoString ResolvedUser) (g : Groups) (name : GoString) (u : ResolvedUser)
      → Below b us
      → find str_discrete name (after us g) ≡ some u
      → (u.cancel_group < b) ⊎ (g.next ≤ u.cancel_group)
  old_or_new us g name u low h =
      let (ru, e, o) = rebuild_users_range rotates ups us g name u h in
      let old = find_of_All str_discrete (λ r. r.cancel_group < b) us name ru low e in
      elim o [
        | inl (_, k) ↦
            inl (
              omega (arith, ap (λ (x : ResolvedUser). x.cancel_group) k, refresh_group ups ru, old))
        | inr (_, _, lo, _) ↦ inr lo
      ]

  pub new_groups_distinct :
      (us : Map GoString ResolvedUser) (g : Groups) (n m : GoString) (u v : ResolvedUser)
      → Below b us
      → b ≤ g.next
      → find str_discrete n (after us g) ≡ some u
      → find str_discrete m (after us g) ≡ some v
      → b ≤ u.cancel_group
      → u.cancel_group ≡ v.cancel_group
      → n ≡ m
  new_groups_distinct [] g n m u v low fits hu hv hb e =
      absurd (unfold find rebuild_users in ground arith)
  new_groups_distinct ((j, ru) ∷ us) g n m u v low fits hu hv hb e =
      elim (Bool-cases (rotates ru)) [
        | inl r ↦
            let g' = (new_cancel_group g).1 in
            let later : g'.next ≡ g.next + 1 = unfold new_cancel_group in refl in
            let a = sym (find-cons_rotated rotates ups n j ru us g r) ∙ hu in
            let c = sym (find-cons_rotated rotates ups m j ru us g r) ∙ hv in
            elim (ite_cases (find str_discrete n (after us g')) (str_discrete j n) a) [
              | inl (p, eu) ↦
                  elim (ite_cases (find str_discrete m (after us g')) (str_discrete j m) c) [
                    | inl (q, ev) ↦ sym p ∙ q
                    | inr (q, ev) ↦ absurd (
                        omega (
                          arith,
                          old_or_new us g' m v low.1 ev,
                          ap (λ (x : ResolvedUser). x.cancel_group) eu,
                        ))
                  ]
              | inr (p, eu) ↦
                  elim (ite_cases (find str_discrete m (after us g')) (str_discrete j m) c) [
                    | inl (q, ev) ↦ absurd (
                        omega (
                          arith,
                          old_or_new us g' n u low.1 eu,
                          ap (λ (x : ResolvedUser). x.cancel_group) ev,
                        ))
                    | inr (q, ev) ↦ new_groups_distinct us g' n m u v low.1 (omega arith) eu ev hb e
                  ]
            ]
        | inr r ↦
            let a = sym (find-cons_kept rotates ups n j ru us g r) ∙ hu in
            let c = sym (find-cons_kept rotates ups m j ru us g r) ∙ hv in
            elim (ite_cases (find str_discrete n (after us g)) (str_discrete j n) a) [
              | inl (p, eu) ↦ absurd (
                  omega (
                    arith,
                    low.0,
                    refresh_group ups ru,
                    ap (λ (x : ResolvedUser). x.cancel_group) eu,
                  ))
              | inr (p, eu) ↦
                  elim (ite_cases (find str_discrete m (after us g)) (str_discrete j m) c) [
                    | inl (q, ev) ↦ absurd (
                        omega (
                          arith,
                          low.0,
                          refresh_group ups ru,
                          ap (λ (x : ResolvedUser). x.cancel_group) ev,
                        ))
                    | inr (q, ev) ↦ new_groups_distinct us g n m u v low.1 fits eu ev hb e
                  ]
            ]
      ]
