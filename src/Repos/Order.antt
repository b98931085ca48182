-- ===== src/Repos/Order.antt =====
-- `ORDER BY` a comparison of rows, as an insertion sort, and what it keeps.
use seatsync.Prelude.{
  ℕ, ◌+◌, ◌≡◌, refl, Bool, true, false, List, [], ◌∷◌, if◌then◌else◌, All, arith,
}
use seatsync.Db.Rows.{one_if}

module _ {A : Type 0} (before : A → A → Bool) where
  unfoldable pub insert_row : A → List A → List A
  insert_row x [] = x ∷ []
  insert_row x (y ∷ ys) = if before x y then x ∷ y ∷ ys else y ∷ insert_row x ys

  unfoldable pub order_by : List A → List A
  unfolding insert_row
  order_by [] = []
  order_by (x ∷ xs) = insert_row x (order_by xs)

-- How many rows pass a test.
unfoldable pub count_where : {A : Type 0} → (A → Bool) → List A → ℕ
count_where p [] = 0
count_where p (x ∷ xs) = one_if (p x) + count_where p xs

module _ {A : Type 0} (before : A → A → Bool) (p : A → Bool) where
  count_where-insert_row :
      (x : A) (xs : List A)
      → count_where p (insert_row before x xs) ≡ one_if (p x) + count_where p xs
  unfolding insert_row count_where
  count_where-insert_row x [] = refl
  count_where-insert_row x (y ∷ ys) = ground (arith, count_where-insert_row x ys)

  pub count_where-order_by : (xs : List A) → count_where p (order_by before xs) ≡ count_where p xs
  unfolding order_by count_where
  count_where-order_by [] = refl
  count_where-order_by (x ∷ xs) =
      grind (arith, count_where-insert_row x (order_by before xs), count_where-order_by xs)

-- What holds of all rows of two lists holds of all rows of the chosen one.
pub All-either :
    {A : Type 0} (P : A → Type 0) (c : Bool) (xs ys : List A)
    → All P xs
    → All P ys
    → All P (if c then xs else ys)
All-either P true xs ys a b = a
All-either P false xs ys a b = b

module _ {A : Type 0} (before : A → A → Bool) (P : A → Type 0) where
  All-insert_row : (x : A) (xs : List A) → P x → All P xs → All P (insert_row before x xs)
  unfolding insert_row
  All-insert_row x [] a hs = (a, tt)
  All-insert_row x (y ∷ ys) a (b, bs) =
      All-either P (before x y) _ _ (a, (b, bs)) (b, All-insert_row x ys a bs)

  pub All-order_by : (xs : List A) → All P xs → All P (order_by before xs)
  unfolding order_by
  All-order_by [] hs = tt
  All-order_by (x ∷ xs) (a, hs) = All-insert_row x (order_by before xs) a (All-order_by xs hs)
