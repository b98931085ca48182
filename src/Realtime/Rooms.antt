-- ===== src/Realtime/Rooms.antt =====
-- What the hub of backend/internal/realtime/hub.go keeps true of its rooms and channels.
use mathlib.Core.Bool.{false≢true}
use seatsync.Prelude.{
  ℕ, ◌≡◌, refl, sym, ap, ◌∙◌, Bool, true, false, not, ◌&&◌, ◌||◌, List, [], ◌∷◌, contains, keep,
  All, Distinct, arith, ◌==◌, if◌then◌else◌, Bool-cases, inl, inr,
}
use seatsync.Realtime.Hub.{
  Hub, close_send, find_room, insert_client, add_client, drop_empty, delete_client, all_clients,
  close_all, add, remove, remove_all, close,
}

-- Whether the client is in a room of the event.
unfoldable pub in_rooms : ℕ → ℕ → List (ℕ × List ℕ) → Bool
in_rooms e c [] = false
in_rooms e c ((k, cs) ∷ rs) = (k == e && contains cs c) || in_rooms e c rs

contains-keep_other :
    (c d : ℕ) (cs : List ℕ)
    → contains (keep (λ x. not (x == c)) cs) d ≡ (contains cs d && not (d == c))
unfolding contains
contains-keep_other c d [] = refl
contains-keep_other c d (x ∷ cs) = ground (arith, contains-keep_other c d cs)

pub in_rooms-add_client :
    (e c e' c' : ℕ) (rs : List (ℕ × List ℕ))
    → in_rooms e' c' (add_client e c rs) ≡ ((e == e' && c == c') || in_rooms e' c' rs)
unfolding in_rooms add_client contains
in_rooms-add_client e c e' c' [] = ground arith
in_rooms-add_client e c e' c' ((k, cs) ∷ rs) = elim (Bool-cases (c == c')) [
  | inl same ↦
      let eq : c ≡ c' = ground arith in
      ground (arith, in_rooms-add_client e c e' c' rs, ap (contains cs) eq)
  | inr differ ↦ ground (arith, in_rooms-add_client e c e' c' rs)
]

in_rooms-drop_empty :
    (k e c : ℕ) (cs : List ℕ) (rs : List (ℕ × List ℕ))
    → in_rooms e c (drop_empty k cs rs) ≡ ((k == e && contains cs c) || in_rooms e c rs)
unfolding in_rooms contains
in_rooms-drop_empty k e c [] rs = ground arith
in_rooms-drop_empty k e c (d ∷ cs) rs = refl

pub in_rooms-delete_client :
    (e c e' c' : ℕ) (rs : List (ℕ × List ℕ))
    → in_rooms e' c' (delete_client e c rs) ≡ (in_rooms e' c' rs && not (e == e' && c' == c))
unfolding in_rooms delete_client
in_rooms-delete_client e c e' c' [] = refl
in_rooms-delete_client e c e' c' ((k, cs) ∷ rs) = ground (
  arith,
  in_rooms-delete_client e c e' c' rs,
  contains-keep_other c c' cs,
  in_rooms-drop_empty k e' c' (keep (λ x. not (x == c)) cs) (delete_client e c rs),
)

pub find_room-in_rooms :
    (e c : ℕ) (rs : List (ℕ × List ℕ)) → contains (find_room e rs) c ≡ true → in_rooms e c rs ≡ true
unfolding find_room in_rooms contains
find_room-in_rooms e c [] h = h
find_room-in_rooms e c ((k, cs) ∷ rs) h = ground (arith, find_room-in_rooms e c rs)

pub record WellFormed (event_of : ℕ → ℕ) (h : Hub) : Type 0 where
  -- A client in a room can be sent to.
  pub unclosed : (e c : ℕ) → in_rooms e c h.rooms ≡ true → (h.channels c).closed ≡ false
  -- A client is in its own event's room.
  pub own : (e c : ℕ) → in_rooms e c h.rooms ≡ true → event_of c ≡ e
  -- A closed hub has no clients.
  pub drained : h.closed ≡ true → h.rooms ≡ []
  -- A room is a set.
  pub sets : All (λ r. Distinct r.1) h.rooms

Distinct-keep_other : (d : ℕ) (cs : List ℕ) → Distinct cs → Distinct (keep (λ x. not (x == d)) cs)
unfolding contains
Distinct-keep_other d [] distinct = tt
Distinct-keep_other d (c ∷ cs) distinct = elim (Bool-cases (c == d)) [
  | inl hit ↦ rw hit (Distinct-keep_other d cs distinct.1)
  | inr miss ↦
      rw miss (
        contains-keep_other d c cs ∙ ground (arith, distinct.0),
        Distinct-keep_other d cs distinct.1,
      )
]

abbrev Sets : List (ℕ × List ℕ) → Type 0
Sets = All λ r. Distinct r.1

drop_empty-Sets :
    (k : ℕ) (cs : List ℕ) (rs : List (ℕ × List ℕ))
    → Distinct cs
    → Sets rs
    → Sets (drop_empty k cs rs)
drop_empty-Sets k [] rs d s = s
drop_empty-Sets k (c ∷ cs) rs d s = (d, s)

delete_client-Sets : (e c : ℕ) (rs : List (ℕ × List ℕ)) → Sets rs → Sets (delete_client e c rs)
unfolding delete_client
delete_client-Sets e c [] s = tt
delete_client-Sets e c ((k, cs) ∷ rs) s = elim (Bool-cases (k == e)) [
  | inl hit ↦
      rw hit (drop_empty-Sets k _ _ (Distinct-keep_other c cs s.0) (delete_client-Sets e c rs s.1))
  | inr miss ↦ rw miss (s.0, delete_client-Sets e c rs s.1)
]

insert_client-Distinct : (c : ℕ) (cs : List ℕ) → Distinct cs → Distinct (insert_client c cs)
insert_client-Distinct c cs d = elim (Bool-cases (contains cs c)) [
  | inl old ↦ rw old d
  | inr new ↦ rw new (new, d)
]

add_client-Sets : (e c : ℕ) (rs : List (ℕ × List ℕ)) → Sets rs → Sets (add_client e c rs)
unfolding add_client contains
add_client-Sets e c [] s = ((refl, tt), tt)
add_client-Sets e c ((k, cs) ∷ rs) s = elim (Bool-cases (k == e)) [
  | inl hit ↦ rw hit (insert_client-Distinct c cs s.0, s.1)
  | inr miss ↦ rw miss (s.0, add_client-Sets e c rs s.1)
]

pub find_room-Distinct :
    (e : ℕ) (rs : List (ℕ × List ℕ)) → All (λ r. Distinct r.1) rs → Distinct (find_room e rs)
unfolding find_room
find_room-Distinct e [] s = tt
find_room-Distinct e ((k, cs) ∷ rs) s = elim (Bool-cases (k == e)) [
  | inl hit ↦ rw hit s.0
  | inr miss ↦ rw miss (find_room-Distinct e rs s.1)
]

module _ (event_of : ℕ → ℕ) where
  added : ℕ → Hub → Hub
  added c h = record h { rooms = add_client (event_of c) c h.rooms }

  added-WellFormed :
      (c : ℕ) (h : Hub)
      → (h.channels c).closed ≡ false
      → WellFormed event_of h
      → h.closed ≡ false
      → WellFormed event_of (added c h)
  unfolding added
  added-WellFormed c h fresh w running = record {
    unclosed = λ e d i. elim (Bool-cases (c == d)) [
      | inl same ↦ let eq : c ≡ d = ground arith in ap (λ x. (h.channels x).closed) (sym eq) ∙ fresh
      | inr other ↦ w.unclosed e d (ground (arith, in_rooms-add_client (event_of c) c e d h.rooms))
    ];
    own = λ e d i. elim (Bool-cases (c == d)) [
      | inl same ↦ elim (Bool-cases (event_of c == e)) [
        | inl here ↦ let eq : c ≡ d = ground arith in ap event_of (sym eq) ∙ ground arith
        | inr elsewhere ↦ w.own e d (ground (arith, in_rooms-add_client (event_of c) c e d h.rooms))
      ]
      | inr other ↦ w.own e d (ground (arith, in_rooms-add_client (event_of c) c e d h.rooms))
    ];
    drained = λ k. absurd (ground arith);
    sets = add_client-Sets (event_of c) c h.rooms w.sets;
  }

  -- A client with an open channel may join.
  pub add-WellFormed :
      (c : ℕ) (h : Hub)
      → (h.channels c).closed ≡ false
      → WellFormed event_of h
      → WellFormed event_of (add event_of c h).1
  unfolding add added
  add-WellFormed c h fresh w = go h.closed (added-WellFormed c h fresh w)
    where
      go :
          (b : Bool)
          → (b ≡ false → WellFormed event_of (added c h))
          → let r : Bool × Hub = if b then (false, h) else (true, added c h) in
            WellFormed event_of r.1
      go true k = w
      go false k = k refl

  pub remove-WellFormed :
      (c : ℕ) (h : Hub) → WellFormed event_of h → WellFormed event_of (remove event_of c h)
  unfolding remove close_send delete_client
  remove-WellFormed c h w = record {
    unclosed = λ e d i.
        let was : in_rooms e d h.rooms ≡ true =
          ground (arith, in_rooms-delete_client (event_of c) c e d h.rooms) in
        elim (Bool-cases (d == c)) [
          | inl same ↦
              let eq : d ≡ c = ground arith in
              absurd (
                ground (
                  arith,
                  in_rooms-delete_client (event_of c) c e d h.rooms,
                  ap event_of eq,
                  w.own e d was,
                ))
          | inr other ↦ rw other (w.unclosed e d was)
        ];
    own = λ e d i. w.own e d (ground (arith, in_rooms-delete_client (event_of c) c e d h.rooms));
    drained = λ k. rw (w.drained k) refl;
    sets = delete_client-Sets (event_of c) c h.rooms w.sets;
  }

  pub remove_all-WellFormed :
      (cs : List ℕ) (h : Hub)
      → WellFormed event_of h
      → WellFormed event_of (remove_all event_of cs h)
  unfolding remove_all
  remove_all-WellFormed [] h w = w
  remove_all-WellFormed (c ∷ cs) h w =
      remove_all-WellFormed cs (remove event_of c h) (remove-WellFormed c h w)

  -- A closed hub has no rooms.
  pub close-WellFormed : (h : Hub) → WellFormed event_of h → WellFormed event_of (close h)
  unfolding close in_rooms
  close-WellFormed h w = go h.closed
    where
      emptied : Hub
      emptied = record {
        rooms = [];
        closed = true;
        channels = close_all (all_clients h.rooms) h.channels;
      }

      go : (b : Bool) → WellFormed event_of (if b then h else emptied)
      go true = w
      go false = record {
        unclosed = λ e d i. absurd (false≢true i);
        own = λ e d i. absurd (false≢true i);
        drained = λ k. refl;
        sets = tt;
      }
