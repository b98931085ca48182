-- ===== src/Services/Selection.antt =====
-- The checks of a seat selection in backend/internal/services/holds.go: `validateSeatSelection`,
-- `intersect`.
use seatsync.Prelude.{
  codes, decimal, ℕ, ◌≤◌, ◌<◌, ◌≡◌, refl, true, false, ◌||◌, List, [], ◌∷◌, ◌++◌, arith, ltb, ◌==◌,
  if◌then◌else◌, Result, ok, err, ok-injective, ap, subst, keep, contains, contains-append, length,
  Distinct, Bool-cases, inl, inr,
}
use seatsync.Httpx.{ApiError, validation}

abbrev pub no_seats_selected : ApiError
no_seats_selected = validation (codes "Select at least one seat.")

abbrev pub empty_seat_id : ApiError
empty_seat_id = validation (codes "Seat ids must not be empty.")

abbrev pub too_many_seats : ℕ → ApiError
too_many_seats max_seats =
    validation (codes "You can hold at most " ++ decimal max_seats ++ codes " seats at a time.")

-- The loop; `unique` holds the ids seen so far, in order, and so stands for the map `seen` too.
unfoldable pub unique_seats : List ℕ → List ℕ → Result ApiError (List ℕ)
unique_seats [] unique = ok unique
unique_seats (id ∷ ids) unique =
    let rest = unique_seats ids (if contains unique id then unique else unique ++ id ∷ []) in
    if id == 0 then err empty_seat_id else rest

abbrev pub at_most : ℕ → Result ApiError (List ℕ) → Result ApiError (List ℕ)
at_most max_seats (err e) = err e
at_most max_seats (ok unique) =
    if ltb max_seats (length unique) then err (too_many_seats max_seats) else ok unique

unfoldable pub validate_seat_selection : ℕ → List ℕ → Result ApiError (List ℕ)
unfolding unique_seats
validate_seat_selection max_seats [] = err no_seats_selected
validate_seat_selection max_seats (id ∷ ids) = at_most max_seats (unique_seats (id ∷ ids) [])

unfoldable pub intersect : List ℕ → List ℕ → List ℕ
intersect ids set = keep (contains set) ids

Distinct-snoc :
    (xs : List ℕ) (a : ℕ) → Distinct xs → contains xs a ≡ false → Distinct (xs ++ a ∷ [])
unfolding contains
Distinct-snoc [] a d h = (refl, tt)
Distinct-snoc (x ∷ xs) a d h =
    (ground (arith, contains-append xs (a ∷ []) x, d.0), Distinct-snoc xs a d.1 (ground arith))

at_most-eq-ok :
    (max_seats : ℕ) (r : Result ApiError (List ℕ)) {out : List ℕ}
    → at_most max_seats r ≡ ok out
    → r ≡ ok out
at_most-eq-ok m (err e) h = h
at_most-eq-ok m (ok unique) h = ground arith

-- What the loop returns.
pub record Selected (ids unique out : List ℕ) : Type 0 where
  pub distinct : Distinct out
  pub no_nil : contains out 0 ≡ false
  pub same : (s : ℕ) → contains out s ≡ (contains unique s || contains ids s)

unique_seats-Selected :
    (ids unique out : List ℕ)
    → Distinct unique
    → contains unique 0 ≡ false
    → unique_seats ids unique ≡ ok out
    → Selected ids unique out
unfolding unique_seats contains
unique_seats-Selected [] unique out d z h =
    subst (Selected [] unique) (ok-injective h)
      (record { distinct = d; no_nil = z; same = λ s. ground arith })
unique_seats-Selected (id ∷ ids) unique out d z h = elim (Bool-cases (contains unique id)) [
  | inl old ↦
      let r = unique_seats-Selected ids unique out d z (ground arith) in
      record { distinct = r.distinct; no_nil = r.no_nil; same = λ s. old_member s old (r.same s) }
  | inr new ↦
      let r =
        unique_seats-Selected ids (unique ++ id ∷ []) out (Distinct-snoc unique id d new)
          (ground (arith, contains-append unique (id ∷ []) 0)) (ground arith) in
      record {
        distinct = r.distinct;
        no_nil = r.no_nil;
        same = λ s. ground (arith, r.same s, contains-append unique (id ∷ []) s);
      }
]
  where
    old_member :
        (s : ℕ)
        → contains unique id ≡ true
        → contains out s ≡ (contains unique s || contains ids s)
        → contains out s ≡ (contains unique s || (id == s || contains ids s))
    old_member s old e = elim (Bool-cases (id == s)) [
      | inl hit ↦ let same : id ≡ s = ground arith in ground (arith, ap (contains unique) same)
      | inr miss ↦ ground arith
    ]

-- A selection that passes the check is the request without its repeats: it has the same seats,
-- each once, none of them `uuid.Nil`, at least one and at most the limit.
pub validate_seat_selection_valid :
    (max_seats : ℕ) (seat_ids out : List ℕ)
    → validate_seat_selection max_seats seat_ids ≡ ok out
    → Distinct out
      × (contains out 0 ≡ false)
      × ((s : ℕ) → contains out s ≡ contains seat_ids s)
      × (0 < length out)
      × (length out ≤ max_seats)
unfolding validate_seat_selection contains
validate_seat_selection_valid max_seats [] out h = absurd (ground arith)
validate_seat_selection_valid max_seats (id ∷ ids) out h = (
  selected.distinct,
  selected.no_nil,
  selected.same,
  nonempty out (selected.same id),
  ground arith,
)
  where
    selected : Selected (id ∷ ids) [] out
    selected =
        unique_seats-Selected (id ∷ ids) [] out tt refl
          (at_most-eq-ok max_seats (unique_seats (id ∷ ids) []) h)

    nonempty : (xs : List ℕ) → contains xs id ≡ (id == id || contains ids id) → 0 < length xs
    nonempty [] e = absurd (ground arith)
    nonempty (x ∷ xs) e = omega arith
