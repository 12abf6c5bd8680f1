-- ===== src/Routing/LiveRebuild.antt =====
-- The rebuilds keep every group of the new snapshot alive, and cancel the groups they replace.
use pio.Base.{
  ℕ, ◌≤◌, ◌<◌, ◌≡◌, ◌≢◌, ◌∙◌, refl, sym, ap, Bool, false, none, some, GoString, str_discrete, arith,
  ◌⊎◌, inl, inr, All, All-map, some_eq, subst, Option, dec_lt,
}
use mathlib.Core.Bool.{false≢true}
use pio.Base.Map.{Map, find, All-find}
use pio.Model.{ResolvedUpstream}
use pio.Routing.State.{Groups, ResolvedUser, RoutingState, is_done, among}
use pio.Routing.Build.{build_display_name_routes}
use pio.Routing.Rebuild.{BrokenInfo, Rebuilt, rebuild_users, notify_if, next_state}
use pio.Routing.Users.{cancelled-rebuild_users, next-rebuild_users, rebuild_users-UniqueKeys}
use pio.Routing.Fresh.{refresh_group, rebuild_users_range}
use pio.Routing.FreshRoutes.{
  cancelled-build_display_name_routes, next-build_display_name_routes,
  build_display_name_routes_range, build_display_name_routes_distinct,
}
use pio.Routing.Distinct.{Below, new_groups_distinct}
use pio.Routing.Notify.{IsAbout, notices_sound, next-notify, notify_spares}
use pio.Routing.Live.{GroupsOk, StateIsLive, fresh_not_done}

module _ (rotates : ResolvedUser → Bool) (ups : Map GoString ResolvedUpstream) (cur : RoutingState)
    (g : Groups) (good : GroupsOk g) (live : StateIsLive cur g) where
  abbrev pub r : Rebuilt
  r = rebuild_users rotates ups cur.users g

  abbrev pub g2 : Groups
  g2 = (build_display_name_routes ups r.groups).1

  same : g2.cancelled ≡ g.cancelled
  same =
      cancelled-build_display_name_routes ups r.groups
      ∙ cancelled-rebuild_users rotates ups cur.users g

  later : g.next ≤ g2.next
  later = omega (
    arith,
    next-rebuild_users rotates ups cur.users g,
    next-build_display_name_routes ups r.groups,
  )

  pub same_state : (k : ℕ) → is_done g2 k ≡ is_done g k
  same_state k = ap (among k) same

  low : Below g.next cur.users
  low =
      All-find str_discrete (λ u. u.cancel_group < g.next) cur.users live.unique
        (λ n u h. (live.user_live n u h).0)

  -- No notice is about a user that was spared, or about a new group.
  abbrev pub Spares : ℕ → BrokenInfo → Type 0
  Spares k b =
      (ru : ResolvedUser) → find str_discrete b.username cur.users ≡ some ru → ru.cancel_group ≢ k

  Spares-new : (k : ℕ) → g.next ≤ k → All (Spares k) r.rotated
  Spares-new k h =
      All-map (IsAbout rotates cur.users) (Spares k) r.rotated
        (λ b _ ru e q. omega (arith, live.user_live b.username ru e))
        (notices_sound rotates ups cur.users g live.unique)

  pub Spares-kept :
      (name : GoString) (ru : ResolvedUser)
      → find str_discrete name cur.users ≡ some ru
      → rotates ru ≡ false
      → All (Spares ru.cancel_group) r.rotated
  Spares-kept name ru h k =
      All-map (IsAbout rotates cur.users) (Spares ru.cancel_group) r.rotated
        (λ b about ru' e q.
          let (x, ex, rx, _) = about in
          let names : b.username ≡ name = live.user_distinct b.username name ru' ru e h q in
          let same_user : ru' ≡ ru =
            some_eq (sym e ∙ subst (λ n. find str_discrete n cur.users ≡ some ru) (sym names) h) in
          let same_about : x ≡ ru' = some_eq (sym ex ∙ e) in ground arith)
        (notices_sound rotates ups cur.users g live.unique)

  -- The group of a user in the new snapshot is spared by the notices.
  Spares-user :
      (name : GoString) (u : ResolvedUser)
      → find str_discrete name r.users ≡ some u
      → (u.cancel_group < g2.next)
        × (is_done g2 u.cancel_group ≡ false)
        × All (Spares u.cancel_group) r.rotated
  Spares-user name u h =
      let (ru, e, o) = rebuild_users_range rotates ups cur.users g name u h in
      elim o [
        | inl (k, same_u) ↦
            let grp : u.cancel_group ≡ ru.cancel_group =
              ap (λ (x : ResolvedUser). x.cancel_group) same_u ∙ refresh_group ups ru in
            let (a, b) = live.user_live name ru e in
            rw grp (omega (arith, later), same_state ru.cancel_group ∙ b, Spares-kept name ru e k)
        | inr (_, _, lo, hi) ↦ (
          omega (arith, next-build_display_name_routes ups r.groups),
          same_state u.cancel_group ∙ fresh_not_done good u.cancel_group lo,
          Spares-new u.cancel_group lo,
        )
      ]

  module _ {W : Type 0} (callback : Option (BrokenInfo → W → W)) (w : W) where
    abbrev pub g3 : Groups
    g3 = (notify_if callback cur.users r.rotated (g2, w)).0

    next_g3 : g3.next ≡ g2.next
    next_g3 = go callback
      where
        go :
            (c : Option (BrokenInfo → W → W))
            → (notify_if c cur.users r.rotated (g2, w)).0.next ≡ g2.next
        go none = refl
        go (some f) = next-notify f cur.users r.rotated g2 w

    pub spared : (k : ℕ) → All (Spares k) r.rotated → is_done g3 k ≡ is_done g2 k
    spared k a = go callback
      where
        go :
            (c : Option (BrokenInfo → W → W))
            → is_done (notify_if c cur.users r.rotated (g2, w)).0 k ≡ is_done g2 k
        go none = refl
        go (some f) = notify_spares f cur.users r.rotated g2 w k a

    new_not_done : (k : ℕ) → g.next ≤ k → is_done g3 k ≡ false
    new_not_done k h = spared k (Spares-new k h) ∙ same_state k ∙ fresh_not_done good k h

    pub rebuilt-GroupsOk : GroupsOk g3
    rebuilt-GroupsOk = record {
      bounded = λ k d. elim (dec_lt k g3.next) [
        | yes p ↦ p
        | no p ↦ absurd (false≢true (sym (new_not_done k (omega (arith, next_g3, later))) ∙ d))
      ];
    }

    old_group :
        (n : GoString) (u : ResolvedUser)
        → find str_discrete n r.users ≡ some u
        → (u.cancel_group < r.groups.next)
          × (((ru : ResolvedUser) × (find str_discrete n cur.users ≡ some ru)
                × (u.cancel_group ≡ ru.cancel_group))
              ⊎ (g.next ≤ u.cancel_group))
    old_group n u h =
        let (ru, e, o) = rebuild_users_range rotates ups cur.users g n u h in
        elim o [
          | inl (k, q) ↦
              let grp : u.cancel_group ≡ ru.cancel_group =
                ap (λ (x : ResolvedUser). x.cancel_group) q ∙ refresh_group ups ru in
              (
                omega (arith, live.user_live n ru e, next-rebuild_users rotates ups cur.users g),
                inl (ru, e, grp),
              )
          | inr (_, _, lo, hi) ↦ (hi, inr lo)
        ]

    rebuilt_distinct :
        (n m : GoString) (u v : ResolvedUser)
        → find str_discrete n r.users ≡ some u
        → find str_discrete m r.users ≡ some v
        → u.cancel_group ≡ v.cancel_group
        → n ≡ m
    rebuilt_distinct n m u v hu hv e = elim (old_group n u hu).1 [
      | inr lo ↦
          new_groups_distinct rotates ups g.next cur.users g n m u v low (omega arith) hu hv lo e
      | inl (ru, eu, qu) ↦ elim (old_group m v hv).1 [
        | inr lo ↦ sym (
            new_groups_distinct rotates ups g.next cur.users g m n v u low (omega arith) hv hu lo
              (sym e))
        | inl (rv, ev, qv) ↦ live.user_distinct n m ru rv eu ev (omega arith)
      ]
    ]

    pub rebuilt-StateIsLive : (now : ℕ) → StateIsLive (next_state cur ups r now r.groups).0 g3
    rebuilt-StateIsLive now = record {
      unique = rebuild_users-UniqueKeys rotates ups cur.users g;
      user_live = λ n u h.
          let (a, b, c) = Spares-user n u h in
          (omega (arith, next_g3), spared u.cancel_group c ∙ b);
      user_distinct = rebuilt_distinct;
      route_live = λ n q h.
          let (a, b) = build_display_name_routes_range ups r.groups n q h in
          let lo : g.next ≤ q.cancel_group =
            omega (arith, next-rebuild_users rotates ups cur.users g) in
          (
            omega (arith, next_g3),
            spared q.cancel_group (Spares-new q.cancel_group lo)
                ∙ same_state q.cancel_group
                ∙ fresh_not_done good q.cancel_group lo,
          );
      route_distinct = build_display_name_routes_distinct ups r.groups;
      route_apart = λ n m u q hu hq e.
          omega (arith, (old_group n u hu).0, build_display_name_routes_range ups r.groups m q hq);
    }
