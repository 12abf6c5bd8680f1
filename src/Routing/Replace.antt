-- ===== src/Routing/Replace.antt =====
-- What SwapUserMapping makes of the snapshot: one user has a new record with a new cancel group,
-- all else is as it was, and no group is cancelled.
use pio.Base.{
  ℕ, ◌≡◌, ◌≢◌, ◌∙◌, refl, sym, ap, Bool, true, false, none, some, [], ◌∷◌, GoString, str_discrete,
  str_eq, arith, ◌⊎◌, inl, inr, some_eq, subst, Option, Option-cases, if◌then◌else◌,
}
use pio.Base.Map.{Map, find, find-put, put-UniqueKeys, UniqueKeys}
use pio.Routing.State.{Groups, ResolvedUser, RoutingState, new_cancel_group}
use pio.Routing.Swap.{replace_user, swapped}
use pio.Routing.Live.{GroupsOk, StateIsLive, fresh_not_done, GroupsOk-later}

abbrev pub replaced : Bool → ResolvedUser → Option ResolvedUser → Option ResolvedUser
replaced b new none = none
replaced b new (some u) = some (if b then new else u)

module _ (username : GoString) (new : ResolvedUser) where
  pub find-replace_user :
      (us : Map GoString ResolvedUser) (name : GoString)
      → find str_discrete name (replace_user username new us)
        ≡ replaced (str_eq name username) new (find str_discrete name us)
  unfolding replace_user find
  find-replace_user [] name = refl
  find-replace_user ((j, u) ∷ us) name = ground (
    arith,
    find-replace_user us name,
    find-put str_discrete j name (if str_eq j username then new else u)
        (replace_user username new us),
  )

  replace_user-UniqueKeys :
      (us : Map GoString ResolvedUser) → UniqueKeys str_discrete (replace_user username new us)
  unfolding replace_user
  replace_user-UniqueKeys [] = tt
  replace_user-UniqueKeys ((j, u) ∷ us) =
      put-UniqueKeys str_discrete j _ _ (replace_user-UniqueKeys us)

  -- A user of the new snapshot is the new one, or an old one of another name.
  replaced_cases :
      (us : Map GoString ResolvedUser) (name : GoString) (u : ResolvedUser)
      → find str_discrete name (replace_user username new us) ≡ some u
      → ((name ≡ username) × (new ≡ u)) ⊎ ((name ≢ username) × (find str_discrete name us ≡ some u))
  replaced_cases us name u h =
      go (str_discrete name username) (Option-cases (find str_discrete name us))
        (sym (find-replace_user us name) ∙ h)
    where
      go :
          (d : Dec (name ≡ username))
          → (find str_discrete name us ≡ none)
            ⊎ ((v : ResolvedUser) × (find str_discrete name us ≡ some v))
          → replaced (elim d [ yes _ ↦ true | no _ ↦ false ]) new (find str_discrete name us)
            ≡ some u
          → ((name ≡ username) × (new ≡ u))
            ⊎ ((name ≢ username) × (find str_discrete name us ≡ some u))
      go d (inl e) q = absurd (ground arith)
      go (yes p) (inr (v, e)) q = inl (p, some_eq (subst (λ o. replaced true new o ≡ some u) e q))
      go (no p) (inr (v, e)) q = inr (p, ground arith)

module _ (cur : RoutingState) (g : Groups) (good : GroupsOk g) (live : StateIsLive cur g)
    (username : GoString) (new : ResolvedUser) (fresh : new.cancel_group ≡ g.next) where
  abbrev g1 : Groups
  g1 = (new_cancel_group g).1

  pub swapped-GroupsOk : GroupsOk g1
  unfolding new_cancel_group
  swapped-GroupsOk = GroupsOk-later g g1 refl (omega arith) good

  pub swapped-StateIsLive : (now : ℕ) → StateIsLive (swapped cur username new now) g1
  unfolding swapped new_cancel_group
  swapped-StateIsLive now = record {
    unique = replace_user-UniqueKeys username new cur.users;
    user_live = λ n u h. elim (replaced_cases username new cur.users n u h) [
      | inl (_, e) ↦ rw (← e, fresh) (omega arith, fresh_not_done good g.next (omega arith))
      | inr (_, e) ↦ let (a, b) = live.user_live n u e in (omega arith, b)
    ];
    user_distinct = λ n m u v hu hv e. elim (replaced_cases username new cur.users n u hu) [
      | inl (p, eu) ↦ elim (replaced_cases username new cur.users m v hv) [
        | inl (q, ev) ↦ p ∙ sym q
        | inr (q, ev) ↦ absurd (
            omega
              (arith, live.user_live m v ev, fresh, ap (λ (x : ResolvedUser). x.cancel_group) eu))
      ]
      | inr (p, eu) ↦ elim (replaced_cases username new cur.users m v hv) [
        | inl (q, ev) ↦ absurd (
            omega
              (arith, live.user_live n u eu, fresh, ap (λ (x : ResolvedUser). x.cancel_group) ev))
        | inr (q, ev) ↦ live.user_distinct n m u v eu ev e
      ]
    ];
    route_live = λ n r h. let (a, b) = live.route_live n r h in (omega arith, b);
    route_distinct = live.route_distinct;
    route_apart = λ n m u r hu hr e. elim (replaced_cases username new cur.users n u hu) [
      | inl (_, eu) ↦
          omega (arith, live.route_live m r hr, fresh, ap (λ (x : ResolvedUser). x.cancel_group) eu)
      | inr (_, eu) ↦ live.route_apart n m u r eu hr e
    ];
  }
