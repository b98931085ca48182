-- ===== src/Services/SeatMap.antt =====
-- What the seat map of backend/internal/services/catalog.go shows: `buildSeatMap` against a
-- description that has no loop.
use seatsync.Prelude.{
  ℕ, suc, ◌+◌, ◌≡◌, refl, Bool, true, false, not, ◌&&◌, Option, none, some, List, [], ◌∷◌, ◌++◌,
  map, ◌==◌, length, length-append, arith, if◌then◌else◌, Bool-cases, Option-cases, inl, inr,
}
use mathlib.Core.List.{append_assoc, append-nil}
use seatsync.Models.{SeatHold, SeatMap, SeatMapEntry, SeatStatus, available, held, sold}
use seatsync.Repos.Event.{SeatRow}
use seatsync.Services.Catalog.{lookup_hold, entry_for, add_row, add_rows, build_seat_map}

-- Sold outranks held, and held outranks available; only a viewer's own hold is theirs, and an
-- anonymous viewer (0) has none.
abbrev pub expected_status : Bool → Option SeatHold → SeatStatus
expected_status true hold = sold
expected_status false none = available
expected_status false (some hold) = held

abbrev pub expected_mine : ℕ → Bool → Option SeatHold → Bool
expected_mine viewer true hold = false
expected_mine viewer false none = false
expected_mine viewer false (some hold) = not (viewer == 0) && hold.user_id == viewer

abbrev pub expected_entry : ℕ → List (ℕ × SeatHold) → ℕ → SeatRow → SeatMapEntry
expected_entry base_price holds viewer r =
    entry_for base_price r (expected_status r.confirmed (lookup_hold (r.seat).id holds))
      (expected_mine viewer r.confirmed (lookup_hold (r.seat).id holds))

abbrev pub same_status : SeatStatus → SeatStatus → Bool
same_status available available = true
same_status held held = true
same_status sold sold = true
same_status _ _ = false

pub count_status : SeatStatus → List SeatMapEntry → ℕ
count_status status [] = 0
count_status status (e ∷ es) =
    let rest = count_status status es in if same_status e.status status then suc rest else rest

add_row-seats :
    (base_price : ℕ) (holds : List (ℕ × SeatHold)) (viewer : ℕ) (r : SeatRow) (m : SeatMap)
    → (add_row base_price holds viewer r m).seats
      ≡ m.seats ++ expected_entry base_price holds viewer r ∷ []
unfolding add_row
add_row-seats base_price holds viewer r m = ground arith

add_rows-seats :
    (base_price : ℕ) (rows : List SeatRow) (holds : List (ℕ × SeatHold)) (viewer : ℕ) (m : SeatMap)
    → (add_rows base_price rows holds viewer m).seats
      ≡ m.seats ++ map (expected_entry base_price holds viewer) rows
unfolding add_rows
add_rows-seats base_price [] holds viewer m = simp append-nil
add_rows-seats base_price (r ∷ rs) holds viewer m =
    rw
      (
        add_rows-seats base_price rs holds viewer (add_row base_price holds viewer r m),
        add_row-seats base_price holds viewer r m,
      )
      (append_assoc m.seats (expected_entry base_price holds viewer r ∷ [])
        (map (expected_entry base_price holds viewer) rs))

count_status-append :
    (status : SeatStatus) (xs ys : List SeatMapEntry)
    → count_status status (xs ++ ys) ≡ count_status status xs + count_status status ys
unfolding count_status
count_status-append status [] ys = omega arith
count_status-append status (x ∷ xs) ys = ground (arith, count_status-append status xs ys)

-- The counters agree with the entries.
pub record Counted (m : SeatMap) : Type 0 where
  pub available_count : m.available ≡ count_status available m.seats
  pub held_count : m.held ≡ count_status held m.seats
  pub confirmed_count : m.confirmed ≡ count_status sold m.seats
  pub total : m.available + m.held + m.confirmed ≡ length m.seats

-- An entry more at the end.
status-added :
    (status : SeatStatus) (xs : List SeatMapEntry) (e : SeatMapEntry)
    → count_status status (xs ++ e ∷ []) ≡ (
        if same_status e.status status
        then suc (count_status status xs)
        else count_status status xs)
unfolding count_status
status-added status xs e = ground (arith, count_status-append status xs (e ∷ []))

-- Only a seat's own counter moves.
with_entry : SeatMap → SeatMapEntry → SeatStatus → SeatMap
with_entry m e available = record m { seats = m.seats ++ e ∷ []; available = suc m.available }
with_entry m e held = record m { seats = m.seats ++ e ∷ []; held = suc m.held }
with_entry m e sold = record m { seats = m.seats ++ e ∷ []; confirmed = suc m.confirmed }

with_entry-Counted :
    (m : SeatMap) (e : SeatMapEntry) (s : SeatStatus)
    → e.status ≡ s
    → Counted m
    → Counted (with_entry m e s)
unfolding with_entry
with_entry-Counted m e available k c = ground (
  arith,
  status-added available m.seats e,
  status-added held m.seats e,
  status-added sold m.seats e,
  length-append m.seats (e ∷ []),
)
with_entry-Counted m e held k c = ground (
  arith,
  status-added available m.seats e,
  status-added held m.seats e,
  status-added sold m.seats e,
  length-append m.seats (e ∷ []),
)
with_entry-Counted m e sold k c = ground (
  arith,
  status-added available m.seats e,
  status-added held m.seats e,
  status-added sold m.seats e,
  length-append m.seats (e ∷ []),
)

add_row-Counted :
    (base_price : ℕ) (holds : List (ℕ × SeatHold)) (viewer : ℕ) (r : SeatRow) (m : SeatMap)
    → Counted m
    → Counted (add_row base_price holds viewer r m)
unfolding add_row with_entry
add_row-Counted base_price holds viewer r m c = elim (Bool-cases r.confirmed) [
  | inl e ↦ rw e (with_entry-Counted m (entry_for base_price r sold false) sold refl c)
  | inr e ↦ elim (Option-cases (lookup_hold (r.seat).id holds)) [
    | inl n ↦
        rw (e, n) (with_entry-Counted m (entry_for base_price r available false) available refl c)
    | inr (h, k) ↦
        rw (e, k)
          (with_entry-Counted m
            (entry_for base_price r held (not (viewer == 0) && h.user_id == viewer)) held refl c)
  ]
]

add_rows-Counted :
    (base_price : ℕ) (rows : List SeatRow) (holds : List (ℕ × SeatHold)) (viewer : ℕ) (m : SeatMap)
    → Counted m
    → Counted (add_rows base_price rows holds viewer m)
unfolding add_rows
add_rows-Counted base_price [] holds viewer m c = c
add_rows-Counted base_price (r ∷ rs) holds viewer m c =
    add_rows-Counted base_price rs holds viewer _ (add_row-Counted base_price holds viewer r m c)

-- The seat map lists exactly the rows of the query, in their order. A confirmed seat is sold
-- whatever the lock store says of it; a seat that is not confirmed is held if the holds name it, and is the
-- viewer's own just if the last of these holds is the viewer's and the viewer is not anonymous; any
-- other seat is available. Each counter is the number of entries of its status, and the three add up to
-- the number of rows.
pub build_seat_map_lem :
    (event_id base_price viewer : ℕ) (rows : List SeatRow) (holds : List (ℕ × SeatHold))
    → let m = build_seat_map event_id base_price rows holds viewer in
      (m.seats ≡ map (expected_entry base_price holds viewer) rows) × Counted m
unfolding build_seat_map count_status
build_seat_map_lem event_id base_price viewer rows holds = (
  add_rows-seats base_price rows holds viewer _,
  add_rows-Counted base_price rows holds viewer _
      (record { available_count = refl; held_count = refl; confirmed_count = refl; total = refl }),
)
