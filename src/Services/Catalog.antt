-- ===== src/Services/Catalog.antt =====
-- `CatalogService` of backend/internal/services/catalog.go: the seat map.
use seatsync.Prelude.{
  ℕ, suc, Bool, false, not, ◌&&◌, Option, none, some, List, [], ◌∷◌, ◌++◌, ◌==◌, ok, if◌then◌else◌,
}
use seatsync.Models.{SeatHold, SeatMap, SeatMapEntry, SeatStatus, available, held, sold}
use seatsync.Models.Price.{price}
use seatsync.Repos.Event.{SeatRow, get_event, seats_for_event}
use seatsync.Services.Holds.{missing_as, event_not_found}
use seatsync.Services.World.{
  SeatLocker, World, Schedule, Service, ◌>>=◌, lift, with_errors, ask, attempt, reading, locking,
}

-- A map as its assignments in order: the last one counts.
unfoldable pub lookup_hold : ℕ → List (ℕ × SeatHold) → Option SeatHold
lookup_hold id [] = none
lookup_hold id ((k, h) ∷ rest) = elim (lookup_hold id rest) [
  | some later ↦ some later
  | none ↦ if k == id then some h else none
]

abbrev pub entry_for : ℕ → SeatRow → SeatStatus → Bool → SeatMapEntry
entry_for base_price r status mine = record {
  seat_id = (r.seat).id;
  section = (r.seat).section;
  row = (r.seat).row;
  number = (r.seat).number;
  price = price (r.seat).price_multiplier_bp base_price;
  status = status;
  held_by_me = mine;
}

-- One round of the loop.
unfoldable pub add_row : ℕ → List (ℕ × SeatHold) → ℕ → SeatRow → SeatMap → SeatMap
add_row base_price holds viewer r m =
    if r.confirmed
    then record m {
      seats = m.seats ++ entry_for base_price r sold false ∷ [];
      confirmed = suc m.confirmed;
    }
    else elim (lookup_hold (r.seat).id holds) [
      | some hold ↦ record m {
        seats =
            m.seats
            ++ entry_for base_price r held (not (viewer == 0) && hold.user_id == viewer) ∷ [];
        held = suc m.held;
      }
      | none ↦ record m {
        seats = m.seats ++ entry_for base_price r available false ∷ [];
        available = suc m.available;
      }
    ]

unfoldable pub add_rows : ℕ → List SeatRow → List (ℕ × SeatHold) → ℕ → SeatMap → SeatMap
add_rows base_price [] holds viewer m = m
add_rows base_price (r ∷ rs) holds viewer m =
    add_rows base_price rs holds viewer (add_row base_price holds viewer r m)

unfoldable pub build_seat_map : ℕ → ℕ → List SeatRow → List (ℕ × SeatHold) → ℕ → SeatMap
build_seat_map event_id base_price rows holds viewer =
    add_rows base_price rows holds viewer
      (record { event_id = event_id; seats = []; available = 0; held = 0; confirmed = 0 })

-- Without hold data the map is still served.
abbrev pub holds_or_none : Option (List (ℕ × SeatHold)) → List (ℕ × SeatHold)
holds_or_none none = []
holds_or_none (some holds) = holds

module _ (L : SeatLocker) (env : Schedule L) where
  unfoldable pub seat_map : ℕ → ℕ → Service (World L) SeatMap
  seat_map event_id viewer = do
    found ← ask L env (reading L (get_event event_id))
    event ← lift (with_errors (missing_as event_not_found) found)
    rows ← ask L env (reading L (seats_for_event event_id event.venue_id))
    holds ← attempt L env (locking L (λ m. L.held_seats m.clock m.now event_id))
    lift (ok (build_seat_map event_id event.base_price rows (holds_or_none holds) viewer))
