-- ===== src/Routing/Notify.antt =====
-- Whom a rebuild calls back, and which cancel groups it cancels: the old group of each user that
-- got a new one, and no other.
use pio.Base.{
  ℕ, ◌≡◌, ◌≢◌, ◌∙◌, refl, sym, Bool, true, false, none, some, List, [], ◌∷◌, GoString, str_discrete,
  arith, ◌⊎◌, Bool-cases, inl, inr, All, subst, Option,
}
use pio.Base.Map.{Map, find, UniqueKeys}
use pio.Model.{ResolvedUpstream}
use pio.Routing.State.{Groups, ResolvedUser, new_cancel_group, cancel, is_done}
use pio.Routing.Rebuild.{BrokenInfo, rebuild_users, notify}

abbrev pub Notified : GoString → List BrokenInfo → Type 0
Notified name [] = ⊥
Notified name (b ∷ bs) = (b.username ≡ name) ⊎ Notified name bs

-- A notice is about a user of the old snapshot that rotates, with its old upstream.
abbrev pub IsAbout : (ResolvedUser → Bool) → Map GoString ResolvedUser → BrokenInfo → Type 0
IsAbout rotates us b =
    (ru : ResolvedUser) × (find str_discrete b.username us ≡ some ru)
    × (rotates ru ≡ true)
    × (b.old_upstream_id ≡ ru.upstream_id)

module _ (rotates : ResolvedUser → Bool) (ups : Map GoString ResolvedUpstream) where
  abbrev notices : Map GoString ResolvedUser → Groups → List BrokenInfo
  notices us g = (rebuild_users rotates ups us g).rotated

  abbrev AllAbout : Map GoString ResolvedUser → List BrokenInfo → Type 0
  AllAbout us bs = All (IsAbout rotates us) bs

  weaken :
      (j : GoString) (ru : ResolvedUser) (us : Map GoString ResolvedUser) (bs : List BrokenInfo)
      → find str_discrete j us ≡ none
      → AllAbout us bs
      → AllAbout ((j, ru) ∷ us) bs
  unfolding find
  weaken j ru us [] h a = tt
  weaken j ru us (b ∷ bs) h ((r, e, t, o), a) = ((r, ground arith, t, o), weaken j ru us bs h a)

  notice : GoString → ResolvedUser → BrokenInfo
  notice j ru = record { username = j; old_upstream_id = ru.upstream_id }

  notices-cons_rotated :
      (j : GoString) (ru : ResolvedUser) (us : Map GoString ResolvedUser) (g : Groups)
      → rotates ru ≡ true
      → notices ((j, ru) ∷ us) g ≡ notice j ru ∷ notices us (new_cancel_group g).1
  unfolding rebuild_users notice
  notices-cons_rotated j ru us g r = ground arith

  notices-cons_kept :
      (j : GoString) (ru : ResolvedUser) (us : Map GoString ResolvedUser) (g : Groups)
      → rotates ru ≡ false
      → notices ((j, ru) ∷ us) g ≡ notices us g
  unfolding rebuild_users
  notices-cons_kept j ru us g r = ground arith

  pub notices_sound :
      (us : Map GoString ResolvedUser) (g : Groups)
      → UniqueKeys str_discrete us
      → AllAbout us (notices us g)
  unfolding notice
  notices_sound [] g u = unfold rebuild_users in tt
  notices_sound ((j, ru) ∷ us) g u = elim (Bool-cases (rotates ru)) [
    | inl r ↦ subst (AllAbout ((j, ru) ∷ us)) (sym (notices-cons_rotated j ru us g r)) (
      (ru, unfold find in ground arith, r, refl),
      weaken j ru us (notices us (new_cancel_group g).1) u.0
          (notices_sound us (new_cancel_group g).1 u.1),
    )
    | inr r ↦
        subst (AllAbout ((j, ru) ∷ us)) (sym (notices-cons_kept j ru us g r))
          (weaken j ru us (notices us g) u.0 (notices_sound us g u.1))
  ]

  pub notices_complete :
      (us : Map GoString ResolvedUser) (g : Groups) (name : GoString) (ru : ResolvedUser)
      → find str_discrete name us ≡ some ru
      → rotates ru ≡ true
      → Notified name (notices us g)
  unfolding notice
  notices_complete [] g name ru h t = absurd (unfold find in ground arith)
  notices_complete ((j, r) ∷ us) g name ru h t = elim (Bool-cases (rotates r)) [
    | inl e ↦
        subst (Notified name) (sym (notices-cons_rotated j r us g e)) (elim (str_discrete j name) [
          | yes p ↦ inl p
          | no p ↦
              inr
                (notices_complete us (new_cancel_group g).1 name ru (unfold find in ground arith) t)
        ])
    | inr e ↦
        subst (Notified name) (sym (notices-cons_kept j r us g e))
          (notices_complete us g name ru (unfold find in ground arith) t)
  ]

module _ {W : Type 0} (f : BrokenInfo → W → W) (old : Map GoString ResolvedUser) where
  pub next-notify :
      (bs : List BrokenInfo) (g : Groups) (w : W) → (notify f old bs (g, w)).0.next ≡ g.next
  unfolding notify cancel
  next-notify [] g w = refl
  next-notify (b ∷ bs) g w = ground (
    arith,
    next-notify bs
        (elim (find str_discrete b.username old) [ none ↦ g | some ru ↦ cancel ru.cancel_group g ])
        (f b w),
  )

  -- A group that no notice is about keeps its state.
  pub notify_spares :
      (bs : List BrokenInfo) (g : Groups) (w : W) (k : ℕ)
      → All
          (λ b.
            (ru : ResolvedUser) → find str_discrete b.username old ≡ some ru → ru.cancel_group ≢ k)
          bs
      → is_done (notify f old bs (g, w)).0 k ≡ is_done g k
  unfolding notify cancel
  notify_spares [] g w k a = refl
  notify_spares (b ∷ bs) g w k a =
      notify_spares bs
        (elim (find str_discrete b.username old) [ none ↦ g | some ru ↦ cancel ru.cancel_group g ])
        (f b w) k a.1
      ∙ spare (find str_discrete b.username old) a.0
    where
      spare :
          (o : Option ResolvedUser)
          → ((ru : ResolvedUser) → o ≡ some ru → ru.cancel_group ≢ k)
          → is_done (elim o [ none ↦ g | some ru ↦ cancel ru.cancel_group g ]) k ≡ is_done g k
      spare none h = refl
      spare (some ru) h = ground (arith, h ru refl)

  notify_keeps_done :
      (bs : List BrokenInfo) (g : Groups) (w : W) (k : ℕ)
      → is_done g k ≡ true
      → is_done (notify f old bs (g, w)).0 k ≡ true
  unfolding notify cancel
  notify_keeps_done [] g w k h = h
  notify_keeps_done (b ∷ bs) g w k h =
      notify_keeps_done bs
        (elim (find str_discrete b.username old) [ none ↦ g | some ru ↦ cancel ru.cancel_group g ])
        (f b w) k (keep (find str_discrete b.username old))
    where
      keep :
          (o : Option ResolvedUser)
          → is_done (elim o [ none ↦ g | some ru ↦ cancel ru.cancel_group g ]) k ≡ true
      keep none = h
      keep (some ru) = ground arith

  -- The old group of a notified user is cancelled.
  pub notify_cancels :
      (bs : List BrokenInfo) (g : Groups) (w : W) (name : GoString) (ru : ResolvedUser)
      → Notified name bs
      → find str_discrete name old ≡ some ru
      → is_done (notify f old bs (g, w)).0 ru.cancel_group ≡ true
  unfolding notify cancel
  notify_cancels [] g w name ru n h = absurd n
  notify_cancels (b ∷ bs) g w name ru (inl p) h =
      notify_keeps_done bs
        (elim (find str_discrete b.username old) [ none ↦ g | some r ↦ cancel r.cancel_group g ])
        (f b w) ru.cancel_group (rw (p, h) (ground arith))
  notify_cancels (b ∷ bs) g w name ru (inr p) h =
      notify_cancels bs
        (elim (find str_discrete b.username old) [ none ↦ g | some r ↦ cancel r.cancel_group g ])
        (f b w) name ru p h
