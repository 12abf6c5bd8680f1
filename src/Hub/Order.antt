-- ===== src/Hub/Order.antt =====
-- A registered client loses no event and gets them in their order, and its channel stays open.
use pio.Base.{
  ℕ, ◌≡◌, ◌≤◌, ◌∙◌, refl, ap, sym, subst, Bool, true, false, none, some, List, [], ◌∷◌, ◌++◌,
  ℕ_discrete, length, arith, inl, inr, Bool-cases, if◌then◌else◌, ite, length-append, ltb, ◌==◌,
  Option-cases, ltb→lt,
}
use pio.Base.Map.{find, put, find-put}
use mathlib.Core.List.{append_assoc}
use pio.Hub.{
  Event, Client, Hub, ring, new_client, offer, taken_or_closed, shut, write_from, write, on_each,
  on_client, broadcast, close_hub, Action, connect, send, turn, depart, close, act, run,
}

pub find-on_each :
    (f : Client → Client) (i : ℕ) (h : Hub)
    → find ℕ_discrete i (on_each f h)
      ≡ elim (find ℕ_discrete i h) [ none ↦ none | some c ↦ some (f c) ]
unfolding find on_each
find-on_each f i [] = refl
find-on_each f i ((id, c) ∷ h) = ground (arith, find-on_each f i h)

pub find-on_client :
    (f : Client → Client) (i j : ℕ) (h : Hub)
    → find ℕ_discrete j (on_client i f h)
      ≡ ite
          (ℕ_discrete i j)
          (elim (find ℕ_discrete j h) [ none ↦ none | some c ↦ some (f c) ])
          (find ℕ_discrete j h)
unfolding find on_client
find-on_client f i j [] = ground arith
find-on_client f i j ((id, c) ∷ h) = ground (arith, find-on_client f i j h)

-- The events that were broadcast since the client connected, after `told` of them before.
unfoldable pub sent : ℕ → List Event → List Action → List Event
sent id told [] = told
sent id told (connect i ∷ actions) = sent id (if i == id then [] else told) actions
sent id told (send ev ∷ actions) = sent id (told ++ ev ∷ []) actions
sent id told (turn i ∷ actions) = sent id told actions
sent id told (depart i ∷ actions) = sent id told actions
sent id told (close ∷ actions) = sent id told actions

-- A registered client's channel is open and holds no more than its ring; what was written and what
-- waits are the events that it was told.
abbrev pub InOrder : List Event → Client → Type 0
InOrder told c =
    (length c.queue ≤ ring)
    × (c.registered ≡ true → (c.closed ≡ false) × (c.written ++ c.queue ≡ told))

-- What the select does to a registered client.
abbrev offered : Event → Client → Bool → Client
offered ev c room =
    if room
    then record c { queue = c.queue ++ ev ∷ [] }
    else record c { closed = true; registered = false }

offered-InOrder :
    (ev : Event) (told : List Event) (c : Client) (room : Bool)
    → ltb (length c.queue) ring ≡ room
    → c.registered ≡ true
    → InOrder told c
    → InOrder (told ++ ev ∷ []) (offered ev c room)
offered-InOrder ev told c false e y h = (h.0, λ r. absurd (ground arith))
offered-InOrder ev told c true e y h =
    let less = ltb→lt (length c.queue) ring e in
    let (opened, all) = h.1 y in
    (
      omega (arith, length-append c.queue (ev ∷ []), less),
      λ r. (opened, sym (append_assoc c.written c.queue (ev ∷ [])) ∙ ap (λ l. l ++ ev ∷ []) all),
    )

offer-InOrder :
    (ev : Event) (told : List Event) (c : Client)
    → InOrder told c
    → InOrder (told ++ ev ∷ []) (offer ev c)
unfolding offer
offer-InOrder ev told c h = elim (Bool-cases c.registered) [
  | inr n ↦ subst (InOrder (told ++ ev ∷ [])) (left n) (h.0, λ r. absurd (ground arith))
  | inl y ↦
      subst
        (λ b. InOrder (told ++ ev ∷ []) (if b then offered ev c (ltb (length c.queue) ring) else c))
        (sym y) (offered-InOrder ev told c (ltb (length c.queue) ring) refl y h)
]
  where
    left :
        c.registered ≡ false
        → c ≡ (if c.registered then offered ev c (ltb (length c.queue) ring) else c)
    left n =
        subst (λ b. c ≡ (if b then offered ev c (ltb (length c.queue) ring) else c)) (sym n) refl

shut-InOrder : (told : List Event) (c : Client) → InOrder told c → InOrder told (shut c)
unfolding shut
shut-InOrder told c h = elim (Bool-cases c.registered) [
  | inr n ↦ subst (λ b. InOrder told (if b then taken_or_closed c.queue c else c)) (sym n) h
  | inl y ↦
      subst (λ b. InOrder told (if b then taken_or_closed c.queue c else c)) (sym y)
        (emptied c.queue h.0)
]
  where
    emptied : (queue : List Event) → length queue ≤ ring → InOrder told (taken_or_closed queue c)
    emptied [] l = (h.0, λ r. absurd (ground arith))
    emptied (ev ∷ queue) l = (omega (arith, l), λ r. absurd (ground arith))

write-InOrder : (told : List Event) (c : Client) → InOrder told c → InOrder told (write c)
unfolding write
write-InOrder told c h = taken_from c.queue refl h.0
  where
    taken_from :
        (queue : List Event)
        → queue ≡ c.queue
        → length queue ≤ ring
        → InOrder told (write_from queue c)
    taken_from [] e l = h
    taken_from (ev ∷ queue) e l = (
      omega (arith, l),
      λ r.
          let (opened, all) = h.1 r in
          (opened, append_assoc c.written (ev ∷ []) queue ∙ ap (λ q. c.written ++ q) e ∙ all),
    )

-- The client under the number, if there is one, is in order.
abbrev pub ClientInOrder : ℕ → List Event → Hub → Type 0
ClientInOrder id told h = (c : Client) → find ℕ_discrete id h ≡ some c → InOrder told c

on_each-InOrder :
    (f : Client → Client) (id : ℕ) (told told' : List Event) (h : Hub)
    → ((c : Client) → InOrder told c → InOrder told' (f c))
    → ClientInOrder id told h
    → ClientInOrder id told' (on_each f h)
on_each-InOrder f id told told' h keeps s c e = elim (Option-cases (find ℕ_discrete id h)) [
  | inl n ↦ absurd (ground (arith, find-on_each f id h))
  | inr (old, o) ↦
      let same : f old ≡ c = ground (arith, find-on_each f id h) in
      subst (InOrder told') same (keeps old (s old o))
]

on_client-InOrder :
    (f : Client → Client) (i id : ℕ) (told : List Event) (h : Hub)
    → ((c : Client) → InOrder told c → InOrder told (f c))
    → ClientInOrder id told h
    → ClientInOrder id told (on_client i f h)
on_client-InOrder f i id told h keeps s c e = elim (Option-cases (find ℕ_discrete id h)) [
  | inl n ↦ absurd (ground (arith, find-on_client f i id h))
  | inr (old, o) ↦ elim (ℕ_discrete i id) [
    | yes p ↦
        let same : f old ≡ c = ground (arith, find-on_client f i id h) in
        subst (InOrder told) same (keeps old (s old o))
    | no p ↦ s c (ground (arith, find-on_client f i id h))
  ]
]

connect-ClientInOrder :
    (i id : ℕ) (told : List Event) (h : Hub)
    → ClientInOrder id told h
    → ClientInOrder id (if i == id then [] else told) (put ℕ_discrete i new_client h)
connect-ClientInOrder i id told h s c e = elim (ℕ_discrete i id) [
  | yes p ↦
      let same : new_client ≡ c = ground (arith, find-put ℕ_discrete i id new_client h) in
      let new : (i == id) ≡ true = ground arith in
      rw new (subst (InOrder []) same (omega arith, λ r. (refl, refl)))
  | no p ↦
      let other : (i == id) ≡ false = ground arith in
      rw other (s c (ground (arith, find-put ℕ_discrete i id new_client h)))
]

-- From a hub whose client is in order, whatever happens next: while the client is registered its
-- channel is open, so that Broadcast never sends on a closed channel nor closes one twice, the channel
-- holds at most 64 events, and what the client was written and what waits are the events broadcast
-- since it connected, in their order and without a gap.
pub run-ClientInOrder :
    (actions : List Action) (id : ℕ) (told : List Event) (h : Hub)
    → ClientInOrder id told h
    → ClientInOrder id (sent id told actions) (run actions h)
unfolding run act sent broadcast close_hub
run-ClientInOrder [] id told h s = s
run-ClientInOrder (connect i ∷ actions) id told h s =
    run-ClientInOrder actions id (if i == id then [] else told) (put ℕ_discrete i new_client h)
      (connect-ClientInOrder i id told h s)
run-ClientInOrder (send ev ∷ actions) id told h s =
    run-ClientInOrder actions id (told ++ ev ∷ []) (broadcast ev h)
      (on_each-InOrder (offer ev) id told (told ++ ev ∷ []) h (offer-InOrder ev told) s)
run-ClientInOrder (turn i ∷ actions) id told h s =
    run-ClientInOrder actions id told (on_client i write h)
      (on_client-InOrder write i id told h (write-InOrder told) s)
run-ClientInOrder (depart i ∷ actions) id told h s =
    run-ClientInOrder actions id told (on_client i shut h)
      (on_client-InOrder shut i id told h (shut-InOrder told) s)
run-ClientInOrder (close ∷ actions) id told h s =
    run-ClientInOrder actions id told (close_hub h)
      (on_each-InOrder shut id told told h (shut-InOrder told) s)
