-- ===== src/Realtime/Delivery.antt =====
-- What `BroadcastSeatUpdates` of backend/internal/realtime/hub.go does to each client.
use seatsync.Prelude.{
  ℕ, ◌≡◌, refl, ap, ◌∙◌, Bool, true, false, not, ◌&&◌, ◌||◌, some, List, [], ◌∷◌, ◌++◌, length,
  contains, Distinct, arith, ltb, ◌==◌, if◌then◌else◌, Bool-cases, inl, inr,
}
use seatsync.Models.{SeatUpdate}
use seatsync.Realtime.Hub.{
  Message, seat_update, send_buffer, Channel, Hub, set_channel, close_send, find_room, try_send,
  if_slow, push_all, remove, remove_all, broadcast_seat_updates,
}
use seatsync.Realtime.Rooms.{
  in_rooms, in_rooms-delete_client, find_room-in_rooms, find_room-Distinct, WellFormed,
  remove_all-WellFormed,
}

-- Whether the buffer has room for one more message.
pub fits : Channel → Bool
fits ch = ltb (length ch.queue) send_buffer

abbrev pub enqueue : Message → Channel → Channel
enqueue m ch = record ch { queue = ch.queue ++ m ∷ [] }

-- A client's channel after the attempt to send to it.
pub after_send : Message → Channel → Channel
after_send m ch = if fits ch then enqueue m ch else ch

after_send-closed : (m : Message) (ch : Channel) → (after_send m ch).closed ≡ ch.closed
unfolding after_send
after_send-closed m ch = ground arith

try_send-unclosed :
    (m : Message) (ch : Channel)
    → ch.closed ≡ false
    → try_send m ch ≡ some (fits ch, after_send m ch)
unfolding try_send after_send fits
try_send-unclosed m ch h = ground arith

-- What the loop over a room leaves.
record Pushed (m : Message) (cs : List ℕ) (before : ℕ → Channel) (slow : List ℕ)
    (after : ℕ → Channel) : Type 0 where
  lagging : (d : ℕ) → contains slow d ≡ (contains cs d && not (fits (before d)))
  queued : (d : ℕ) → after d ≡ (if contains cs d then after_send m (before d) else before d)

push_all-cons :
    (m : Message) (c : ℕ) (cs : List ℕ) (channels : ℕ → Channel) (sent : Bool) (ch : Channel)
    (slow : List ℕ) (after : ℕ → Channel)
    → try_send m (channels c) ≡ some (sent, ch)
    → push_all m cs (set_channel c ch channels) ≡ some (slow, after)
    → push_all m (c ∷ cs) channels ≡ some (if_slow sent c slow, after)
unfolding push_all
push_all-cons m c cs channels sent ch slow after h k = rw (h, k, push_all) refl

push_all-Pushed :
    (m : Message) (cs : List ℕ) (channels : ℕ → Channel)
    → Distinct cs
    → ((d : ℕ) → contains cs d ≡ true → (channels d).closed ≡ false)
    → (slow : List ℕ) × (after : ℕ → Channel) × (push_all m cs channels ≡ some (slow, after))
      × Pushed m cs channels slow after
unfolding push_all contains
push_all-Pushed m [] channels distinct unclosed =
    ([], λ d. channels d, refl, record { lagging = λ d. refl; queued = λ d. refl })
push_all-Pushed m (c ∷ cs) channels distinct unclosed =
    let sent = try_send-unclosed m (channels c) (unclosed c (ground arith)) in
    let (slow, after, rest, p) =
      push_all-Pushed m cs (set_channel c (after_send m (channels c)) channels) distinct.1 still in
    (
      if_slow (fits (channels c)) c slow,
      after,
      push_all-cons m c cs channels (fits (channels c)) _ slow after sent rest,
      record {
        lagging = λ d. lagging_too d slow (p.lagging d);
        queued = λ d. queued_too d (after d) (p.queued d);
      },
    )
  where
    others : ℕ → Channel
    others = set_channel c (after_send m (channels c)) channels

    -- The client that was just served is not among those left.
    served : (d : ℕ) → (d == c) ≡ true → contains cs d ≡ false
    served d h = let eq : d ≡ c = ground arith in ap (contains cs) eq ∙ distinct.0

    still : (d : ℕ) → contains cs d ≡ true → (others d).closed ≡ false
    still d h = elim (Bool-cases (d == c)) [
      | inl hit ↦ absurd (ground (arith, served d hit))
      | inr miss ↦ rw miss (unclosed d (ground arith))
    ]

    lagging_too :
        (d : ℕ) (slow : List ℕ)
        → contains slow d ≡ (contains cs d && not (fits (others d)))
        → contains (if_slow (fits (channels c)) c slow) d
          ≡ ((c == d || contains cs d) && not (fits (channels d)))
    lagging_too d slow e = elim (Bool-cases (d == c)) [
      | inl hit ↦
          let eq : d ≡ c = ground arith in
          ground (arith, served d hit, ap (λ x. fits (channels x)) eq)
      | inr miss ↦ ground (arith, ap fits {x = others d} {y = channels d} (rw miss refl))
    ]

    queued_too :
        (d : ℕ) (ch : Channel)
        → ch ≡ (if contains cs d then after_send m (others d) else others d)
        → ch ≡ (if c == d || contains cs d then after_send m (channels d) else channels d)
    queued_too d ch e = elim (Bool-cases (d == c)) [
      | inl hit ↦
          let eq : d ≡ c = ground arith in
          ground (arith, served d hit, ap (λ x. after_send m (channels x)) eq)
      | inr miss ↦ ground (arith, ap (after_send m) {x = others d} {y = channels d} (rw miss refl))
    ]

module _ (event_of : ℕ → ℕ) where
  -- Which clients a series of removals leaves, and with which channels.
  in_rooms-remove_all :
      (cs : List ℕ) (h : Hub) (e d : ℕ)
      → in_rooms e d (remove_all event_of cs h).rooms
        ≡ (in_rooms e d h.rooms && not (contains cs d && event_of d == e))
  unfolding remove_all remove contains
  in_rooms-remove_all [] h e d = ground arith
  in_rooms-remove_all (c ∷ cs) h e d = elim (Bool-cases (c == d)) [
    | inl same ↦
        let eq : c ≡ d = ground arith in
        ground (
          arith,
          in_rooms-remove_all cs (remove event_of c h) e d,
          in_rooms-delete_client (event_of c) c e d h.rooms,
          ap event_of eq,
        )
    | inr other ↦ ground (
      arith,
      in_rooms-remove_all cs (remove event_of c h) e d,
      in_rooms-delete_client (event_of c) c e d h.rooms,
    )
  ]

  channels-remove_all :
      (cs : List ℕ) (h : Hub) (d : ℕ)
      → (remove_all event_of cs h).channels d
        ≡ (if contains cs d then record (h.channels d) { closed = true } else h.channels d)
  unfolding remove_all remove close_send contains
  channels-remove_all [] h d = refl
  channels-remove_all (c ∷ cs) h d = elim (Bool-cases (d == c)) [
    | inl same ↦
        let eq : d ≡ c = ground arith in
        ground (arith, channels-remove_all cs (remove event_of c h) d, ap h.channels eq)
    | inr other ↦ ground (arith, channels-remove_all cs (remove event_of c h) d)
  ]

  abbrev pub update_message : ℕ → List SeatUpdate → Message
  update_message event_id seats = record { kind = seat_update; event_id = event_id; seats = seats }

  -- What a broadcast does to one client.
  pub record Delivered (event_id : ℕ) (m : Message) (h h' : Hub) (c : ℕ) : Type 0 where
    -- A client of the room gets the message if its buffer has room, and else its channel is closed; no
    -- other client's channel changes.
    pub channel : h'.channels c ≡ (
        if contains (find_room event_id h.rooms) c
        then (if fits (h.channels c)
            then enqueue m (h.channels c)
            else record (h.channels c) { closed = true })
        else h.channels c)
    -- Exactly the clients of the room with no room in their buffer leave it.
    pub rooms :
        (e : ℕ)
        → in_rooms e c h'.rooms ≡ (
            in_rooms e c h.rooms
            && not (contains (find_room event_id h.rooms) c && not (fits (h.channels c))))

  module _ (event_id : ℕ) (m : Message) (h : Hub) (w : WellFormed event_of h) (slow : List ℕ)
      (after : ℕ → Channel) (p : Pushed m (find_room event_id h.rooms) h.channels slow after) where
    sent : Hub
    sent = record h { channels = after }

    sent-WellFormed : WellFormed event_of sent
    unfolding sent
    sent-WellFormed = record {
      unclosed = λ e d i.
          ap (λ ch. ch.closed) (p.queued d)
          ∙ elim (Bool-cases (contains (find_room event_id h.rooms) d)) [
            | inl here ↦ rw here (after_send-closed m (h.channels d) ∙ w.unclosed e d i)
            | inr elsewhere ↦ rw elsewhere (w.unclosed e d i)
          ];
      own = w.own;
      drained = w.drained;
      sets = w.sets;
    }

    sent-Delivered : (c : ℕ) → Delivered event_id m h (remove_all event_of slow sent) c
    unfolding sent after_send
    sent-Delivered c = record {
      channel = ground (arith, channels-remove_all slow sent c, p.queued c, p.lagging c);
      rooms = λ e. elim (Bool-cases (in_rooms e c h.rooms)) [
        | inl member ↦
            ground (arith, in_rooms-remove_all slow sent e c, p.lagging c, w.own e c member)
        | inr outside ↦ ground (arith, in_rooms-remove_all slow sent e c)
      ];
    }

  -- A broadcast of some updates never sends on a closed channel and never blocks: from a well-formed
  -- hub it succeeds and leaves a well-formed hub; each client of the event gets the
  -- message at the end of its queue if its buffer has room and is dropped, its channel closed, if it has not,
  -- and nothing changes for any other client.
  pub broadcast_seat_updates-Delivered :
      (event_id : ℕ) (u : SeatUpdate) (us : List SeatUpdate) (h : Hub)
      → WellFormed event_of h
      → (h' : Hub) × (broadcast_seat_updates event_of event_id (u ∷ us) h ≡ some h')
        × WellFormed event_of h'
        × ((c : ℕ) → Delivered event_id (update_message event_id (u ∷ us)) h h' c)
  unfolding broadcast_seat_updates sent
  broadcast_seat_updates-Delivered event_id u us h w =
      let m = update_message event_id (u ∷ us) in
      let (slow, after, pushed, p) =
        push_all-Pushed m (find_room event_id h.rooms) h.channels
          (find_room-Distinct event_id h.rooms w.sets)
          (λ d i. w.unclosed event_id d (find_room-in_rooms event_id d h.rooms i)) in
      (
        remove_all event_of slow (sent event_id m h w slow after p),
        rw (pushed, broadcast_seat_updates) refl,
        remove_all-WellFormed event_of slow _ (sent-WellFormed event_id m h w slow after p),
        sent-Delivered event_id m h w slow after p,
      )
