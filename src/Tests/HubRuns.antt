-- ===== src/Tests/HubRuns.antt =====
-- A hub with one browser, 7, that watches event 3.
use seatsync.Prelude.{true, List, text_eq, ℕ, ◌≡◌, refl, false, some, [], ◌∷◌, contains, arith}
use seatsync.Models.{SeatUpdate, held}
use seatsync.Realtime.Hub.{Hub, broadcast_seat_updates}
use seatsync.Realtime.Rooms.{in_rooms, WellFormed}
use seatsync.Realtime.Delivery.{Delivered, update_message, broadcast_seat_updates-Delivered}
use seatsync.Realtime.Relay.{
  PubSub, sealed, relay_seat_updates, deliver_all, EachOnce, relay-EachOnce,
}
use seatsync.Realtime.Sessions.{
  joins, leaves, broadcasts, shuts, open_channel, Works, handle_all, handle_all-Works, new_hub,
}

abbrev watches : ℕ → ℕ
watches c = 3

abbrev seat_4_held : SeatUpdate
seat_4_held = record { seat_id = 4; status = held }

abbrev one_browser : Hub
one_browser = record { rooms = (3, 7 ∷ []) ∷ []; closed = false; channels = λ c. open_channel }

one_browser-WellFormed : WellFormed watches one_browser
unfolding in_rooms contains
one_browser-WellFormed = record {
  unclosed = λ e c i. refl;
  own = λ e c i. ground arith;
  drained = λ k. absurd (ground arith);
  sets = ((refl, tt), tt);
}

broadcast_seat_updates-Delivered_example :
    (h' : Hub) × (broadcast_seat_updates watches 3 (seat_4_held ∷ []) one_browser ≡ some h')
    × WellFormed watches h'
    × ((c : ℕ) → Delivered watches 3 (update_message watches 3 (seat_4_held ∷ [])) one_browser h' c)
broadcast_seat_updates-Delivered_example =
    broadcast_seat_updates-Delivered watches 3 seat_4_held [] one_browser one_browser-WellFormed

handle_all-Works_example : Works watches (
    handle_all watches
      (joins 7 ∷ broadcasts 3 (seat_4_held ∷ []) ∷ joins 8 ∷ leaves 7 ∷ shuts ∷ joins 9 ∷ [])
      new_hub)
handle_all-Works_example =
    handle_all-Works watches
      (joins 7 ∷ broadcasts 3 (seat_4_held ∷ []) ∷ joins 8 ∷ leaves 7 ∷ shuts ∷ joins 9 ∷ [])

abbrev instance_named : List ℕ → PubSub
instance_named name = record { origin = name; hub = one_browser }

relay-EachOnce_example :
    (me' : PubSub) × (others' : List PubSub) × (relay_seat_updates watches true 3
        (seat_4_held ∷ [])
        (instance_named (1 ∷ []))
      ≡ some (me', some (sealed (1 ∷ []) 3 (seat_4_held ∷ []))))
    × (deliver_all watches
          (sealed (1 ∷ []) 3 (seat_4_held ∷ []))
          (me' ∷ instance_named (2 ∷ []) ∷ [])
        ≡ some (me' ∷ others'))
    × EachOnce watches 3
        (seat_4_held ∷ [])
        (instance_named (1 ∷ []) ∷ instance_named (2 ∷ []) ∷ [])
        (me' ∷ others')
unfolding text_eq
relay-EachOnce_example =
    relay-EachOnce watches 3 seat_4_held [] (instance_named (1 ∷ [])) (instance_named (2 ∷ []) ∷ [])
      (refl, tt) one_browser-WellFormed (one_browser-WellFormed, tt)
