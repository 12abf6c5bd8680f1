-- ===== src/Hub.antt =====
-- internal/ws/hub.go: the hub of events. A client is one connection with its channel, which the hub
-- and the client's writer goroutine share; the hub's map holds the clients that are registered. Each
-- operation runs under the hub's mutex, so it is one step.
pub mod Order
pub mod Tests
use pio.Base.{
  ℕ, Bool, true, false, List, [], ◌∷◌, ◌++◌, GoString, ℕ_discrete, length, ltb, if◌then◌else◌, ite,
}
use pio.Base.Map.{Map, put}

pub record Event : Type 0 where
  pub event_type : GoString
  pub payload : GoString
  pub at : ℕ

-- make(chan Event, 64)
abbrev pub ring : ℕ
ring = 64

-- `queue` is what the channel holds, `written` what the writer goroutine has taken from it. Whether
-- WriteJSON then sends it is not in the model; a write that fails, as every write does once Close has
-- closed the connection, ends the goroutine, so that no further turn of it follows.
pub record Client : Type 0 where
  pub registered : Bool
  pub closed : Bool
  pub queue : List Event
  pub written : List Event

abbrev pub Hub : Type 0
Hub = Map ℕ Client

abbrev pub new_hub : Hub
new_hub = []

abbrev pub new_client : Client
new_client = record { registered = true; closed = false; queue = []; written = [] }

-- The select of Broadcast: a full channel is closed and its client dropped.
unfoldable pub offer : Event → Client → Client
offer ev c =
    if c.registered
    then if ltb (length c.queue) ring
      then record c { queue = c.queue ++ ev ∷ [] }
      else record c { closed = true; registered = false }
    else c

-- The select of Close and of the deferred function, without the closing of the connection: an event is taken from the channel, or the channel
-- is closed where there is none.
abbrev pub taken_or_closed : List Event → Client → Client
taken_or_closed [] c = record c { closed = true; registered = false }
taken_or_closed (ev ∷ queue) c = record c { queue = queue; registered = false }

unfoldable pub shut : Client → Client
shut c = if c.registered then taken_or_closed c.queue c else c

-- One turn of the writer's loop over the channel.
abbrev pub write_from : List Event → Client → Client
write_from [] c = c
write_from (ev ∷ queue) c = record c { queue = queue; written = c.written ++ ev ∷ [] }

unfoldable pub write : Client → Client
write c = write_from c.queue c

unfoldable pub on_each : (Client → Client) → Hub → Hub
on_each f [] = []
on_each f ((id, c) ∷ h) = (id, f c) ∷ on_each f h

unfoldable pub on_client : ℕ → (Client → Client) → Hub → Hub
on_client i f [] = []
on_client i f ((id, c) ∷ h) =
    let rest = on_client i f h in ite (ℕ_discrete id i) ((id, f c) ∷ h) ((id, c) ∷ rest)

unfoldable pub broadcast : Event → Hub → Hub
broadcast ev h = on_each (offer ev) h

-- Close
unfoldable pub close_hub : Hub → Hub
close_hub h = on_each shut h

-- What may happen next. Connections are numbered, and no number is used twice.
pub data Action : Type 0 where
  connect : ℕ → Action
  send : Event → Action
  turn : ℕ → Action
  depart : ℕ → Action
  close : Action

unfoldable pub act : Action → Hub → Hub
unfolding broadcast close_hub
act (connect id) h = put ℕ_discrete id new_client h
act (send ev) h = broadcast ev h
act (turn id) h = on_client id write h
act (depart id) h = on_client id shut h
act close h = close_hub h

-- The actions in their order, from the hub `h` on.
unfoldable pub run : List Action → Hub → Hub
run [] h = h
run (a ∷ actions) h = run actions (act a h)
