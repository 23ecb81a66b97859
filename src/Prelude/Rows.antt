-- ===== src/Prelude/Rows.antt =====
-- Tables as lists of rows: the queries and updates that the sessions of the program make.
use Prim.Native.Nat.{ℕ, zero, suc, ◌+◌, ◌≤◌}
use mathlib.Core.Path.{◌≡◌}
use mathlib.Core.Bool.{Bool, true, false, not, ◌||◌, ◌&&◌}
use mathlib.Core.Option.{Option, none, some}
use mathlib.Core.List.{List, [], ◌∷◌, ◌++◌}
use native.Mathlib.Omega.{arith}
use market_intelligence_lab.Prelude.Tests.{◌==◌, if◌then◌else◌}

module _ {ℓ} {A : Type ℓ} where
  abbrev pub length : List A → ℕ
  length [] = 0
  length (x ∷ xs) = suc (length xs)

  -- The rows that pass a test, in order.
  abbrev pub where_rows : (A → Bool) → List A → List A
  where_rows p [] = []
  where_rows p (x ∷ xs) = if p x then x ∷ where_rows p xs else where_rows p xs

  -- The first row that passes a test.
  abbrev pub find : (A → Bool) → List A → Option A
  find p [] = none
  find p (x ∷ xs) = if p x then some x else find p xs

  abbrev pub exists_row : (A → Bool) → List A → Bool
  exists_row p [] = false
  exists_row p (x ∷ xs) = p x || exists_row p xs

  abbrev pub every : (A → Bool) → List A → Bool
  every p [] = true
  every p (x ∷ xs) = p x && every p xs

  -- Writes the rows that pass a test.
  abbrev pub update_rows : (A → Bool) → (A → A) → List A → List A
  update_rows p f [] = []
  update_rows p f (x ∷ xs) = (if p x then f x else x) ∷ update_rows p f xs

  -- A statement about every row.
  abbrev pub All {κ} : (A → Type κ) → List A → Type κ
  All P [] = Unit
  All P (x ∷ xs) = P x × All P xs

  abbrev pub or_else : Option A → A → A
  or_else none d = d
  or_else (some a) d = a

  abbrev pub is_some : Option A → Bool
  is_some none = false
  is_some (some a) = true

  pub length-append : (xs ys : List A) → length (xs ++ ys) ≡ length xs + length ys
  length-append [] ys = omega arith
  length-append (x ∷ xs) ys = omega (arith, length-append xs ys)

  pub length-where_rows : (p : A → Bool) (xs : List A) → length (where_rows p xs) ≤ length xs
  length-where_rows p [] = omega arith
  length-where_rows p (x ∷ xs) = ground (arith, length-where_rows p xs)

-- Ordering rows by a test `before x y`: x may stand before y.
module _ {ℓ} {A : Type ℓ} (before : A → A → Bool) where
  abbrev pub insert_sorted : A → List A → List A
  insert_sorted x [] = x ∷ []
  insert_sorted x (y ∷ ys) = if before x y then x ∷ y ∷ ys else y ∷ insert_sorted x ys

  -- `ORDER BY`; equal rows keep their order.
  abbrev pub sort_rows : List A → List A
  sort_rows [] = []
  sort_rows (x ∷ xs) = insert_sorted x (sort_rows xs)

  -- `ORDER BY … LIMIT 1`
  abbrev pub least_of : A → List A → A
  least_of x [] = x
  least_of x (y ∷ ys) = let r = least_of y ys in if before x r then x else r

  abbrev pub least : List A → Option A
  least [] = none
  least (x ∷ xs) = some (least_of x xs)

module _ {ℓ} {A : Type ℓ} where
  -- `LIMIT n`
  abbrev pub take : ℕ → List A → List A
  take zero xs = []
  take (suc n) [] = []
  take (suc n) (x ∷ xs) = x ∷ take n xs

  abbrev pub drop : ℕ → List A → List A
  drop zero xs = xs
  drop (suc n) [] = []
  drop (suc n) (x ∷ xs) = drop n xs

  pub length-take : (n : ℕ) (xs : List A) → length (take n xs) ≤ n
  length-take zero xs = omega arith
  length-take (suc n) [] = omega arith
  length-take (suc n) (x ∷ xs) = omega (arith, length-take n xs)

-- Texts are lists of code points.
abbrev pub same_text : List ℕ → List ℕ → Bool
same_text [] [] = true
same_text (c ∷ cs) (d ∷ ds) = c == d && same_text cs ds
same_text _ _ = false

-- No two rows are the same by a test.
abbrev pub distinct_by {ℓ} : {A : Type ℓ} → (A → A → Bool) → List A → Bool
distinct_by same [] = true
distinct_by same (x ∷ xs) = not (exists_row (same x) xs) && distinct_by same xs
