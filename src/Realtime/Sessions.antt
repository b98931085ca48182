-- ===== src/Realtime/Sessions.antt =====
-- The life of a hub of backend/internal/realtime/hub.go: `NewHub`, `Serve`, the end of a client's
-- `readPump`, broadcasts and `Close`, in any order.
use seatsync.Prelude.{
  ℕ, ◌≡◌, refl, ap, ◌∙◌, Bool, true, false, Option, none, some, List, [], ◌∷◌, ◌++◌, arith, ltb,
  length, ◌==◌, ==_refl, Bool-cases, inl, inr,
}
use seatsync.Models.{SeatUpdate}
use seatsync.Realtime.Hub.{
  Message, connected, Channel, Hub, set_channel, send_buffer, try_send, add, remove,
  broadcast_seat_updates, close,
}
use seatsync.Realtime.Rooms.{
  in_rooms, WellFormed, add-WellFormed, remove-WellFormed, close-WellFormed,
}
use seatsync.Realtime.Delivery.{broadcast_seat_updates-Delivered}

abbrev pub new_hub : Hub
new_hub = record {
  rooms = [];
  closed = false;
  channels = λ c. record { queue = []; closed = true };
}

abbrev pub open_channel : Channel
open_channel = record { queue = []; closed = false }

-- The greeting, with a default if the buffer is full.
abbrev pub greeted : ℕ → Hub → Option (Bool × Channel) → Option Hub
greeted c h none = none
greeted c h (some (sent, ch)) = some (record h { channels = set_channel c ch h.channels })

module _ (event_of : ℕ → ℕ) where
  abbrev pub after_add : ℕ → Bool × Hub → Option Hub
  after_add c (false, h) = some h
  after_add c (true, h) =
      greeted c h
        (try_send (record { kind = connected; event_id = event_of c; seats = [] }) (h.channels c))

  -- `Serve` after the upgrade: the new client's channel, its registration, the greeting. A closed hub turns
  -- it away.
  unfoldable pub serve_client : ℕ → Hub → Option Hub
  serve_client c h =
      after_add c (add event_of c (record h { channels = set_channel c open_channel h.channels }))

  -- What happens to a hub.
  pub data HubEvent : Type 0 where
    joins leaves : ℕ → HubEvent
    broadcasts : ℕ → List SeatUpdate → HubEvent
    shuts : HubEvent

  unfoldable pub handle : HubEvent → Hub → Option Hub
  handle (joins c) h = serve_client c h
  handle (leaves c) h = some (remove event_of c h)
  handle (broadcasts event_id updates) h = broadcast_seat_updates event_of event_id updates h
  handle shuts h = some (close h)

  abbrev pub and_then : (Hub → Option Hub) → Option Hub → Option Hub
  and_then f none = none
  and_then f (some h) = f h

  unfoldable pub handle_all : List HubEvent → Hub → Option Hub
  handle_all [] h = some h
  handle_all (x ∷ xs) h = and_then (handle_all xs) (handle x h)

  -- The result is there, and it is well-formed.
  abbrev pub Works : Option Hub → Type 0
  Works r = (h : Hub) × (r ≡ some h) × WellFormed event_of h

  new_hub-WellFormed : WellFormed event_of new_hub
  unfolding in_rooms
  new_hub-WellFormed = record {
    unclosed = λ e c i. absurd (ground arith);
    own = λ e c i. absurd (ground arith);
    drained = λ k. absurd (ground arith);
    sets = tt;
  }

  -- Other channels may stand in for these if no client of a room has a closed one.
  rechannel-WellFormed :
      (h : Hub) (c : ℕ) (ch : Channel)
      → ch.closed ≡ false
      → WellFormed event_of h
      → WellFormed event_of (record h { channels = set_channel c ch h.channels })
  rechannel-WellFormed h c ch k w = record {
    unclosed = λ e d i. elim (Bool-cases (d == c)) [
      | inl same ↦ rw same k
      | inr other ↦ rw other (w.unclosed e d i)
    ];
    own = w.own;
    drained = w.drained;
    sets = w.sets;
  }

  try_send-still :
      (m : Message) (ch : Channel)
      → ch.closed ≡ false
      → (sent : Bool) × (ch' : Channel) × (try_send m ch ≡ some (sent, ch')) × (ch'.closed ≡ false)
  unfolding try_send
  try_send-still m ch k = elim (Bool-cases (ltb (length ch.queue) send_buffer)) [
    | inl room ↦ (true, record ch { queue = ch.queue ++ m ∷ [] }, ground arith, k)
    | inr full ↦ (false, ch, ground arith, k)
  ]

  after_add-Works :
      (c : ℕ) (r : Bool × Hub)
      → (r.1.channels c).closed ≡ false
      → WellFormed event_of r.1
      → Works (after_add c r)
  after_add-Works c (false, h) k w = (h, refl, w)
  after_add-Works c (true, h) k w =
      let m : Message = record { kind = connected; event_id = event_of c; seats = [] } in
      let (sent, ch, e, still) = try_send-still m (h.channels c) k in
      (_, ap (greeted c h) e, rechannel-WellFormed h c ch still w)

  add-channels : (c : ℕ) (h : Hub) → (add event_of c h).1.channels c ≡ h.channels c
  unfolding add
  add-channels c h = ground arith

  serve_client-Works : (c : ℕ) (h : Hub) → WellFormed event_of h → Works (serve_client c h)
  unfolding serve_client
  serve_client-Works c h w =
      let fresh : Hub = record h { channels = set_channel c open_channel h.channels } in
      let opened : (fresh.channels c).closed ≡ false = rw (==_refl c) refl in
      after_add-Works c (add event_of c fresh)
        (ap (λ ch. ch.closed) (add-channels c fresh) ∙ opened)
        (add-WellFormed event_of c fresh opened (rechannel-WellFormed h c open_channel refl w))

  handle-Works : (x : HubEvent) (h : Hub) → WellFormed event_of h → Works (handle x h)
  unfolding handle broadcast_seat_updates
  handle-Works (joins c) h w = serve_client-Works c h w
  handle-Works (leaves c) h w = (remove event_of c h, refl, remove-WellFormed event_of c h w)
  handle-Works (broadcasts event_id []) h w = (h, refl, w)
  handle-Works (broadcasts event_id (u ∷ us)) h w =
      let (h', e, w', delivered) = broadcast_seat_updates-Delivered event_of event_id u us h w in
      (h', e, w')
  handle-Works shuts h w = (close h, refl, close-WellFormed event_of h w)

  handle_all-Works_from :
      (xs : List HubEvent) (h : Hub) → WellFormed event_of h → Works (handle_all xs h)
  unfolding handle_all
  handle_all-Works_from [] h w = (h, refl, w)
  handle_all-Works_from (x ∷ xs) h w =
      let (h', e, w') = handle-Works x h w in
      let (h'', e', w'') = handle_all-Works_from xs h' w' in
      (h'', ap (and_then (handle_all xs)) e ∙ e', w'')

  -- A hub never sends on a closed channel. From a new hub, any sequence of clients that join or leave,
  -- broadcasts and shut-downs, each of them run to its end, succeeds, and after it every client in a room
  -- has an open channel and is in its own event's room once, and a hub that was shut has no clients.
  pub handle_all-Works : (xs : List HubEvent) → Works (handle_all xs new_hub)
  handle_all-Works xs = handle_all-Works_from xs new_hub new_hub-WellFormed
