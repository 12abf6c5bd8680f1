-- ===== src/Tunnel/Grants.antt =====
-- `Acquire` against a relation that says which credentials open which upstream, and how each
-- failure is classified for the deny-list.
use pio.Base.{
  ◌≡◌, ◌≢◌, ◌↔◌, ◌∙◌, sym, false, none, some, [], GoString, str_discrete, arith, inl, inr, some_eq,
  subst, Option-cases,
}
use pio.Base.Map.{find}
use pio.Routing.State.{ResolvedUser, DisplayNameRoute, RoutingState}
use pio.Tunnel.Acquire.{bad_password, Grant, granted, refused, acquire}

-- The user's own password, if the name is a user's.
abbrev pub OwnPassword : RoutingState → GoString → GoString → Type 0
OwnPassword s name password =
    (u : ResolvedUser) × (find str_discrete name s.users ≡ some u) × (u.password_plain ≡ password)

abbrev pub UniversalPassword : RoutingState → GoString → Type 0
UniversalPassword s password = (s.universal_pwd ≢ []) × (s.universal_pwd ≡ password)

-- Which pair opens which upstream: a user's own credentials, if its mapping is sound; else a display
-- name with the universal password, where the pair is not a user's own.
pub data Opens (s : RoutingState) (name password : GoString) (g : Grant) : Type 0 where
  by_user :
      (u : ResolvedUser)
      → find str_discrete name s.users ≡ some u
      → u.password_plain ≡ password
      → u.broken ≡ false
      → u.upstream ≡ some g.upstream
      → u.upstream_pwd ≡ g.upstream_pwd
      → u.cancel_group ≡ g.cancel_group
      → Opens s name password g
  by_name :
      ¬ OwnPassword s name password
      → UniversalPassword s password
      → (r : DisplayNameRoute) → find str_discrete name s.by_display_name ≡ some r
      → r.upstream ≡ some g.upstream
      → r.upstream_pwd ≡ g.upstream_pwd
      → r.cancel_group ≡ g.cancel_group
      → Opens s name password g

-- To be told apart: a user with its own password, a user without, no user.
data Who (s : RoutingState) (name password : GoString) : Type 0 where
  own :
      (u : ResolvedUser)
      → find str_discrete name s.users ≡ some u
      → u.password_plain ≡ password
      → Who s name password
  other :
      (u : ResolvedUser)
      → find str_discrete name s.users ≡ some u
      → u.password_plain ≢ password
      → Who s name password
  nobody : find str_discrete name s.users ≡ none → Who s name password

who : (s : RoutingState) (name password : GoString) → Who s name password
who s name password = elim (Option-cases (find str_discrete name s.users)) [
  | inl e ↦ nobody e
  | inr (u, e) ↦ elim (str_discrete u.password_plain password) [
    | yes p ↦ own u e p
    | no p ↦ other u e p
  ]
]

not_own :
    (s : RoutingState) (name : GoString) {password : GoString} (u : ResolvedUser)
    → find str_discrete name s.users ≡ some u
    → u.password_plain ≢ password
    → ¬ OwnPassword s name password
not_own s name {password} u e p (v, ev, q) =
    p (subst (λ (x : ResolvedUser). x.password_plain ≡ password) (some_eq (sym ev ∙ e)) q)

module _ (s : RoutingState) (name password : GoString) where
  Opens-granted : (g : Grant) → acquire (some s) name password ≡ granted g → Opens s name password g
  unfolding acquire
  Opens-granted g h = elim (who s name password) [
    | own u e p ↦ by_user u e p (ground arith) (ground arith) (ground arith) (ground arith)
    | other u e p ↦ elim (Option-cases (find str_discrete name s.by_display_name)) [
      | inl q ↦ absurd (ground arith)
      | inr (r, q) ↦
          by_name (not_own s name u e p) (ground arith, ground arith) r q (ground arith)
            (ground arith) (ground arith)
    ]
    | nobody e ↦ elim (Option-cases (find str_discrete name s.by_display_name)) [
      | inl q ↦ absurd (ground arith)
      | inr (r, q) ↦
          by_name (λ o. let (v, ev, _) = o in ground arith) (ground arith, ground arith) r q
            (ground arith) (ground arith) (ground arith)
    ]
  ]

  granted_of_Opens :
      (g : Grant) → Opens s name password g → acquire (some s) name password ≡ granted g
  unfolding acquire
  granted_of_Opens g (by_user u e p b up w k) = ground arith
  granted_of_Opens g (by_name no_own (set, eq) r q up w k) = elim (who s name password) [
    | own u e p ↦ absurd (no_own (u, e, p))
    | other u e p ↦ ground arith
    | nobody e ↦ ground arith
  ]

  -- A pair is granted an upstream exactly when it opens it.
  pub acquire_iff_Opens :
      (g : Grant) → (acquire (some s) name password ≡ granted g) ↔ Opens s name password g
  acquire_iff_Opens g = (Opens-granted g, granted_of_Opens g)

  -- A bad password is reported exactly for a known user whose password it is not, where it is not
  -- the universal one either.
  pub bad_password_iff : (acquire (some s) name password ≡ refused bad_password) ↔ (
      ((u : ResolvedUser) × (find str_discrete name s.users ≡ some u))
      × (¬ OwnPassword s name password)
      × (¬ UniversalPassword s password))
  unfolding acquire
  bad_password_iff = (
    λ h. elim (who s name password) [
      | own u e p ↦ absurd (ground arith)
      | other u e p ↦ ((u, e), not_own s name u e p, λ o. let (a, b) = o in ground arith)
      | nobody e ↦ absurd (ground arith)
    ],
    λ ((u, e), no_own, no_universal). elim (who s name password) [
      | own v ev p ↦ absurd (no_own (v, ev, p))
      | other v ev p ↦ elim (str_discrete s.universal_pwd []) [
        | yes z ↦ ground arith
        | no z ↦ elim (str_discrete s.universal_pwd password) [
          | yes y ↦ absurd (no_universal (z, y))
          | no y ↦ ground arith
        ]
      ]
      | nobody ev ↦ absurd (ground arith)
    ],
  )
