-- ===== src/Realtime/Hub.antt =====
-- `Hub` of backend/internal/realtime/hub.go. A client is a number and its event a function of it,
-- as the field is never written; a channel is its queue and whether it is closed. A payload stands
-- for its JSON encoding. The sends, removals and closings of one call are one step here; the two goroutines
-- of a client and the wait group are left out.
use seatsync.Prelude.{
  ℕ, ◌+◌, Bool, true, false, not, Option, none, some, List, [], ◌∷◌, ◌++◌, length, contains, keep,
  ltb, ◌==◌, if◌then◌else◌,
}
use seatsync.Models.{SeatUpdate}

pub data MessageType : Type 0 where
  connected seat_update : MessageType

pub record Message : Type 0 where
  pub kind : MessageType
  pub event_id : ℕ
  pub seats : List SeatUpdate

abbrev pub send_buffer : ℕ
send_buffer = 64

pub record Channel : Type 0 where
  pub queue : List Message
  pub closed : Bool

-- A room is an event and its clients.
pub record Hub : Type 0 where
  pub rooms : List (ℕ × List ℕ)
  pub closed : Bool
  pub channels : ℕ → Channel

abbrev pub set_channel : ℕ → Channel → (ℕ → Channel) → ℕ → Channel
set_channel c ch channels j = if j == c then ch else channels j

-- `closeOnce.Do(close(send))`
unfoldable pub close_send : ℕ → (ℕ → Channel) → ℕ → Channel
close_send c channels = set_channel c (record (channels c) { closed = true }) channels

unfoldable pub find_room : ℕ → List (ℕ × List ℕ) → List ℕ
find_room e [] = []
find_room e ((k, cs) ∷ rs) = if k == e then cs else find_room e rs

abbrev pub insert_client : ℕ → List ℕ → List ℕ
insert_client c cs = if contains cs c then cs else c ∷ cs

unfoldable pub add_client : ℕ → ℕ → List (ℕ × List ℕ) → List (ℕ × List ℕ)
add_client e c [] = (e, c ∷ []) ∷ []
add_client e c ((k, cs) ∷ rs) =
    let rest = add_client e c rs in if k == e then (k, insert_client c cs) ∷ rs else (k, cs) ∷ rest

abbrev pub drop_empty : ℕ → List ℕ → List (ℕ × List ℕ) → List (ℕ × List ℕ)
drop_empty k [] rs = rs
drop_empty k (c ∷ cs) rs = (k, c ∷ cs) ∷ rs

unfoldable pub delete_client : ℕ → ℕ → List (ℕ × List ℕ) → List (ℕ × List ℕ)
delete_client e c [] = []
delete_client e c ((k, cs) ∷ rs) =
    let rest = delete_client e c rs in
    if k == e then drop_empty k (keep (λ d. not (d == c)) cs) rest else (k, cs) ∷ rest

unfoldable pub count_clients : List (ℕ × List ℕ) → ℕ
count_clients [] = 0
count_clients ((k, cs) ∷ rs) = length cs + count_clients rs

unfoldable pub close_all : List ℕ → (ℕ → Channel) → ℕ → Channel
unfolding close_send
close_all [] channels = channels
close_all (c ∷ cs) channels = close_all cs (close_send c channels)

unfoldable pub all_clients : List (ℕ × List ℕ) → List ℕ
all_clients [] = []
all_clients ((k, cs) ∷ rs) = cs ++ all_clients rs

-- `select` with a send and a default: a send on a closed channel panics (`none`), a full buffer
-- takes the default.
unfoldable pub try_send : Message → Channel → Option (Bool × Channel)
try_send m ch =
    if ch.closed
    then none
    else if ltb (length ch.queue) send_buffer
    then some (true, record ch { queue = ch.queue ++ m ∷ [] })
    else some (false, ch)

abbrev pub if_slow : Bool → ℕ → List ℕ → List ℕ
if_slow true c slow = slow
if_slow false c slow = c ∷ slow

-- The loop over a room: the slow clients and the channels after it.
unfoldable pub push_all : Message → List ℕ → (ℕ → Channel) → Option (List ℕ × (ℕ → Channel))
unfolding try_send
push_all m [] channels = some ([], channels)
push_all m (c ∷ cs) channels = elim (try_send m (channels c)) [
  | none ↦ none
  | some (sent, ch) ↦ elim (push_all m cs (set_channel c ch channels)) [
    | none ↦ none
    | some (slow, channels') ↦ some (if_slow sent c slow, channels')
  ]
]

module _ (event_of : ℕ → ℕ) where
  unfoldable pub add : ℕ → Hub → Bool × Hub
  add c h =
      if h.closed
      then (false, h)
      else (true, record h { rooms = add_client (event_of c) c h.rooms })

  unfoldable pub remove : ℕ → Hub → Hub
  remove c h = record h {
    rooms = delete_client (event_of c) c h.rooms;
    channels = close_send c h.channels;
  }

  unfoldable pub remove_all : List ℕ → Hub → Hub
  unfolding remove
  remove_all [] h = h
  remove_all (c ∷ cs) h = remove_all cs (remove c h)

  abbrev pub after_push : Hub → Option (List ℕ × (ℕ → Channel)) → Option Hub
  after_push h none = none
  after_push h (some (slow, channels)) = some (remove_all slow (record h { channels = channels }))

  unfoldable pub broadcast_seat_updates : ℕ → List SeatUpdate → Hub → Option Hub
  unfolding push_all remove_all
  broadcast_seat_updates event_id [] h = some h
  broadcast_seat_updates event_id (u ∷ us) h = after_push h (
      push_all (record { kind = seat_update; event_id = event_id; seats = u ∷ us })
        (find_room event_id h.rooms) h.channels)

unfoldable pub close : Hub → Hub
close h =
    if h.closed
    then h
    else record { rooms = []; closed = true; channels = close_all (all_clients h.rooms) h.channels }

unfoldable pub client_count : ℕ → Hub → ℕ
client_count e h = length (find_room e h.rooms)

unfoldable pub total_clients : Hub → ℕ
total_clients h = count_clients h.rooms
