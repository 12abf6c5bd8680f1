-- ===== src/Hub/Tests.antt =====
-- A client that is told of two events before the hub is closed.
use pio.Base.{◌≡◌, refl, arith, List, [], ◌∷◌, codes, ℕ_discrete}
use pio.Base.Map.{find, put, remove}
use pio.Hub.{
  Event, Client, Hub, new_hub, new_client, offer, write, on_each, on_client, broadcast, Action,
  connect, send, turn, act, run,
}
use pio.Hub.Order.{sent, ClientInOrder, run-ClientInOrder}

abbrev first : Event
first = record { event_type = codes "a"; payload = []; at = 1 }

abbrev second : Event
second = record { event_type = codes "b"; payload = []; at = 2 }

abbrev actions : List Action
actions = connect 1 ∷ send first ∷ turn 1 ∷ send second ∷ []

-- One event is written, the other waits.
abbrev told : Client
told = record new_client { queue = second ∷ []; written = first ∷ [] }

abbrev hub : Hub
hub = (1, told) ∷ []

told_test : run actions new_hub ≡ hub
unfolding run act put remove broadcast on_each on_client offer write ℕ_discrete
told_test = refl

run-ClientInOrder_example : ClientInOrder 1 (sent 1 [] actions) (run actions new_hub)
unfolding find ℕ_discrete
run-ClientInOrder_example = run-ClientInOrder actions 1 [] new_hub (λ c e. absurd (ground arith))
