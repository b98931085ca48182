-- ===== src/Repos/Lookup.antt =====
-- How the statements of backend/internal/repos change what is found under an id.
use mathlib.Core.Bool.{false≢true}
use seatsync.Prelude.{
  ℕ, zero, suc, ◌≡◌, refl, sym, ap, ◌∙◌, Bool, true, false, ◌&&◌, Option, none, some, List, [], ◌∷◌,
  map, arith, ◌==◌, inl, inr, Bool-cases, keep, take, contains, exists_in, Distinct,
}
use seatsync.Models.{Booking}
use seatsync.Db.Rows.{find_booking, update_booking, map_if}
use seatsync.Repos.Booking.{is_some}
use seatsync.Repos.Expiry.{insert_by, sort_by, claimed_ids, lapsed, expire, expire_rows}

abbrev pub ids : List Booking → List ℕ
ids = map λ b. b.id

pub ids-update :
    (i : ℕ) (f : Booking → Booking) (bs : List Booking)
    → ((b : Booking) → (f b).id ≡ b.id)
    → ids (update_booking i f bs) ≡ ids bs
unfolding update_booking
ids-update i f [] k = refl
ids-update i f (b ∷ bs) k = ground (arith, k b, ids-update i f bs k)

pub ids-expire_rows : (is : List ℕ) (bs : List Booking) → ids (expire_rows is bs) ≡ ids bs
unfolding expire_rows
ids-expire_rows is [] = refl
ids-expire_rows is (b ∷ bs) = ground (arith, ids-expire_rows is bs)

pub contains-ids : (i : ℕ) (bs : List Booking) → contains (ids bs) i ≡ is_some (find_booking i bs)
unfolding contains find_booking
contains-ids i [] = refl
contains-ids i (b ∷ bs) = ground (arith, contains-ids i bs)

pub find_booking-expire_rows :
    (is : List ℕ) (j : ℕ) (bs : List Booking)
    → find_booking j (expire_rows is bs) ≡ map_if (contains is j) expire (find_booking j bs)
unfolding find_booking expire_rows
find_booking-expire_rows is j [] = refl
find_booking-expire_rows is j (b ∷ bs) = elim (Bool-cases (b.id == j)) [
  | inl hit ↦ let e : b.id ≡ j = ground arith in ground (arith, ap (contains is) e)
  | inr miss ↦ ground (arith, find_booking-expire_rows is j bs)
]

contains-take :
    (n : ℕ) (bs : List Booking) (j : ℕ)
    → contains (ids (take n bs)) j ≡ true
    → contains (ids bs) j ≡ true
unfolding contains
contains-take zero bs j h = ground arith
contains-take (suc n) [] j h = ground arith
contains-take (suc n) (b ∷ bs) j h = ground (arith, contains-take n bs j)

pub contains-insert_by :
    (key : Booking → ℕ) (b : Booking) (bs : List Booking) (j : ℕ)
    → contains (ids (insert_by key b bs)) j ≡ contains (ids (b ∷ bs)) j
unfolding contains insert_by
contains-insert_by key b [] j = refl
contains-insert_by key b (c ∷ bs) j = ground (arith, contains-insert_by key b bs j)

pub contains-sort_by :
    (key : Booking → ℕ) (bs : List Booking) (j : ℕ)
    → contains (ids (sort_by key bs)) j ≡ contains (ids bs) j
unfolding sort_by contains
contains-sort_by key [] j = refl
contains-sort_by key (b ∷ bs) j =
    ground (arith, contains-insert_by key b (sort_by key bs) j, contains-sort_by key bs j)

contains-keep :
    (p : Booking → Bool) (bs : List Booking) (j : ℕ)
    → contains (ids (keep p bs)) j ≡ true
    → exists_in (λ b. b.id == j && p b) bs ≡ true
unfolding contains
contains-keep p [] j h = ground arith
contains-keep p (b ∷ bs) j h = ground (arith, contains-keep p bs j)

abbrev found : (Booking → Bool) → Option Booking → Bool
found p none = false
found p (some b) = p b

found_some :
    (p : Booking → Bool) (o : Option Booking)
    → found p o ≡ true
    → (b : Booking) × (o ≡ some b) × (p b ≡ true)
found_some p none h = absurd (false≢true h)
found_some p (some b) h = (b, refl, h)

exists_in-ids :
    (p : Booking → Bool) (bs : List Booking) (j : ℕ)
    → exists_in (λ b. b.id == j && p b) bs ≡ true
    → contains (ids bs) j ≡ true
unfolding contains
exists_in-ids p [] j h = h
exists_in-ids p (b ∷ bs) j h = ground (arith, exists_in-ids p bs j)

exists_in-found :
    (p : Booking → Bool) (bs : List Booking) (j : ℕ)
    → Distinct (ids bs)
    → exists_in (λ b. b.id == j && p b) bs ≡ true
    → found p (find_booking j bs) ≡ true
unfolding find_booking
exists_in-found p [] j d h = h
exists_in-found p (b ∷ bs) j d h = elim (Bool-cases (b.id == j)) [
  | inl hit ↦
      let e : b.id ≡ j = ground arith in
      ground (arith, exists_in-ids p bs j, ap (contains (ids bs)) e)
  | inr miss ↦ ground (arith, exists_in-found p bs j d.1)
]

-- What the sweep claims is, under its id, a booking that has lapsed.
pub claimed_ids-lapsed :
    (limit : ℕ) (locked : ℕ → Bool) (now : ℕ) (bs : List Booking) (j : ℕ)
    → Distinct (ids bs)
    → contains (claimed_ids limit locked now bs) j ≡ true
    → (b : Booking) × (find_booking j bs ≡ some b) × (lapsed now locked b ≡ true)
unfolding claimed_ids
claimed_ids-lapsed limit locked now bs j d h = found_some (lapsed now locked) (find_booking j bs) (
    exists_in-found (lapsed now locked) bs j d (
      contains-keep (lapsed now locked) bs j (
        sym (contains-sort_by (λ b. b.hold_expires_at) (keep (lapsed now locked) bs) j)
        ∙ contains-take limit _ j h)))
