-- ===== src/Prelude/RowLaws.antt =====
-- Lemmas on tables: what a query returns, and what an update leaves.
use Prim.Native.Nat.{ℕ, zero, suc}
use mathlib.Core.Path.{subst, sym, ◌≡◌, refl, ap}
use mathlib.Core.Option.{some-injective}
use mathlib.Core.Logic.{inl, inr, ◌⊎◌}
use mathlib.Core.Bool.{Bool, true, false, ◌||◌}
use mathlib.Core.Option.{none, some}
use mathlib.Core.List.{List, [], ◌∷◌, ◌++◌}
use native.Mathlib.Omega.{arith}
use market_intelligence_lab.Prelude.Tests.{Bool-cases}
use market_intelligence_lab.Prelude.Rows.{
  All, exists_row, find, insert_sorted, is_some, least, least_of, sort_rows, take, update_rows,
  where_rows,
}

pub or_right : (a : Bool) {b : Bool} → b ≡ true → a || b ≡ true
or_right a h = ground arith

module _ {ℓ κ} {A : Type ℓ} (P : A → Type κ) where
  pub All-take : (n : ℕ) (xs : List A) → All P xs → All P (take n xs)
  All-take zero xs h = tt
  All-take (suc n) [] h = tt
  All-take (suc n) (x ∷ xs) h = (h.0, All-take n xs h.1)

  pub All-insert_sorted :
      (before : A → A → Bool) (x : A) (xs : List A)
      → P x
      → All P xs
      → All P (insert_sorted before x xs)
  All-insert_sorted before x [] p h = (p, tt)
  All-insert_sorted before x (y ∷ ys) p h = elim (Bool-cases (before x y)) [
    | inl e ↦ rw e (p, h)
    | inr e ↦ rw e (h.0, All-insert_sorted before x ys p h.1)
  ]

  pub All-sort_rows : (before : A → A → Bool) (xs : List A) → All P xs → All P (sort_rows before xs)
  All-sort_rows before [] h = tt
  All-sort_rows before (x ∷ xs) h =
      All-insert_sorted before x (sort_rows before xs) h.0 (All-sort_rows before xs h.1)

  pub All-least_of :
      (before : A → A → Bool) (x : A) (xs : List A) → P x → All P xs → P (least_of before x xs)
  All-least_of before x [] p h = p
  All-least_of before x (y ∷ ys) p h = elim (Bool-cases (before x (least_of before y ys))) [
    | inl e ↦ rw e p
    | inr e ↦ rw e (All-least_of before y ys h.0 h.1)
  ]

module _ {ℓ} {A : Type ℓ} where
  pub All-where_rows : (p : A → Bool) (xs : List A) → All (λ x. p x ≡ true) (where_rows p xs)
  All-where_rows p [] = tt
  All-where_rows p (x ∷ xs) = elim (Bool-cases (p x)) [
    | inl e ↦ rw e (e, All-where_rows p xs)
    | inr e ↦ rw e (All-where_rows p xs)
  ]

-- With a total and transitive order the least row stands before every row.
module _ {ℓ} {A : Type ℓ} (before : A → A → Bool)
    (total : (a b : A) → (before a b ≡ true) ⊎ (before b a ≡ true))
    (trans : (a b c : A) → before a b ≡ true → before b c ≡ true → before a c ≡ true) where
  All-before_trans :
      (a b : A) (xs : List A)
      → before a b ≡ true
      → All (λ y. before b y ≡ true) xs
      → All (λ y. before a y ≡ true) xs
  All-before_trans a b [] h all = tt
  All-before_trans a b (x ∷ xs) h all = (trans a b x h all.0, All-before_trans a b xs h all.1)

  before_self : (a : A) → before a a ≡ true
  before_self a = elim (total a a) [ inl h ↦ h | inr h ↦ h ]

  pub least_of-le :
      (x : A) (xs : List A) → All (λ y. before (least_of before x xs) y ≡ true) (x ∷ xs)
  least_of-le x [] = (before_self x, tt)
  least_of-le x (y ∷ ys) = elim (Bool-cases (before x (least_of before y ys))) [
    | inl e ↦
        let found : least_of before x (y ∷ ys) ≡ x = rw e in
        subst (λ r. All (λ z. before r z ≡ true) (x ∷ y ∷ ys)) (sym found)
          (before_self x, All-before_trans x (least_of before y ys) (y ∷ ys) e (least_of-le y ys))
    | inr e ↦
        let found : least_of before x (y ∷ ys) ≡ least_of before y ys = rw e in
        let h : before (least_of before y ys) x ≡ true = elim (total x (least_of before y ys)) [
          | inl h ↦ cc
          | inr h ↦ h
        ] in
        subst (λ r. All (λ z. before r z ≡ true) (x ∷ y ∷ ys)) (sym found) (h, least_of-le y ys)
  ]

module _ {ℓ κ μ} {A : Type ℓ} (P : A → Type κ) (Q : A → Type μ) where
  pub All-map : (f : (a : A) → P a → Q a) (xs : List A) → All P xs → All Q xs
  All-map f [] h = tt
  All-map f (x ∷ xs) h = (f x h.0, All-map f xs h.1)

module _ {ℓ κ} {A : Type ℓ} (P : A → Type κ) where
  -- What holds of the rows that pass a test, holds of all rows that pass it.
  pub All-of_where_rows :
      (p : A → Bool) (xs : List A) → All P (where_rows p xs) → All (λ x. p x ≡ true → P x) xs
  All-of_where_rows p [] h = tt
  All-of_where_rows p (x ∷ xs) h = elim (Bool-cases (p x)) [
    | inl e ↦
        let split : P x × All P (where_rows p xs) = (rw e at h) in
        (λ _. split.0, All-of_where_rows p xs split.1)
    | inr e ↦ (λ t. cc, All-of_where_rows p xs (rw e at h))
  ]

  pub All-where_rows_of : (p : A → Bool) (xs : List A) → All P xs → All P (where_rows p xs)
  All-where_rows_of p [] h = tt
  All-where_rows_of p (x ∷ xs) h = elim (Bool-cases (p x)) [
    | inl e ↦ rw e (h.0, All-where_rows_of p xs h.1)
    | inr e ↦ rw e (All-where_rows_of p xs h.1)
  ]

  pub All-append : (xs ys : List A) → All P xs → All P ys → All P (xs ++ ys)
  All-append [] ys h k = k
  All-append (x ∷ xs) ys h k = (h.0, All-append xs ys h.1 k)

module _ {ℓ κ μ} {A : Type ℓ} (P : A → Type κ) (Q : A → Type μ) where
  pub All-zip : (xs : List A) → All P xs → All Q xs → All (λ x. P x × Q x) xs
  All-zip [] h k = tt
  All-zip (x ∷ xs) h k = ((h.0, k.0), All-zip xs h.1 k.1)

  pub All-apply : (xs : List A) → All (λ x. P x → Q x) xs → All P xs → All Q xs
  All-apply [] h k = tt
  All-apply (x ∷ xs) h k = (h.0 k.0, All-apply xs h.1 k.1)

module _ {ℓ} {A : Type ℓ} where
  -- A write that keeps the tested column keeps the answer of a lookup by it.
  pub is_some-find-update_rows :
      (q p : A → Bool) (f : A → A) (xs : List A)
      → ((x : A) → q (f x) ≡ q x)
      → is_some (find q (update_rows p f xs)) ≡ is_some (find q xs)
  is_some-find-update_rows q p f [] h = refl
  is_some-find-update_rows q p f (x ∷ xs) h = elim (Bool-cases (p x)) [
    | inl e ↦
        rw (e, h x)
          (elim (Bool-cases (q x)) [
            | inl k ↦ rw k
            | inr k ↦ rw k (is_some-find-update_rows q p f xs h)
          ])
    | inr e ↦ rw e (elim (Bool-cases (q x)) [
      | inl k ↦ rw k
      | inr k ↦ rw k (is_some-find-update_rows q p f xs h)
    ])
  ]

  -- A write to other rows leaves a lookup alone.
  pub find-update_rows_other :
      (q p : A → Bool) (f : A → A) (xs : List A)
      → ((x : A) → q (f x) ≡ q x)
      → ((x : A) → q x ≡ true → p x ≡ false)
      → find q (update_rows p f xs) ≡ find q xs
  find-update_rows_other q p f [] h apart = refl
  find-update_rows_other q p f (x ∷ xs) h apart = elim (Bool-cases (q x)) [
    | inl k ↦ rw (apart x k) (rw k)
    | inr k ↦ elim (Bool-cases (p x)) [
      | inl e ↦ rw (e, h x) (rw k (find-update_rows_other q p f xs h apart))
      | inr e ↦ rw e (rw k (find-update_rows_other q p f xs h apart))
    ]
  ]

-- The first row by an order among those that pass a test.
module _ {ℓ} {A : Type ℓ} (before : A → A → Bool)
    (total : (a b : A) → (before a b ≡ true) ⊎ (before b a ≡ true))
    (trans : (a b c : A) → before a b ≡ true → before b c ≡ true → before a c ≡ true) (p : A → Bool)
    (xs : List A) where
  least_where_go :
      (l : List A)
      → where_rows p xs ≡ l
      → ((least before (where_rows p xs) ≡ none) × All (λ r. p r ≡ true → ⊥) xs)
        ⊎ ((a : A) × (least before (where_rows p xs) ≡ some a)
            × (p a ≡ true)
            × All (λ r. p r ≡ true → before a r ≡ true) xs)
  least_where_go [] e = inl (rw e, All-of_where_rows (λ _. ⊥) p xs (rw e tt))
  least_where_go (y ∷ ys) e =
      let passes : All (λ r. p r ≡ true) (y ∷ ys) = (rw e at (All-where_rows p xs)) in
      inr (
        least_of before y ys,
        rw e,
        All-least_of (λ r. p r ≡ true) before y ys passes.0 passes.1,
        All-of_where_rows (λ r. before (least_of before y ys) r ≡ true) p xs
            (rw e (least_of-le before total trans y ys)),
      )

  pub least_where :
      ((least before (where_rows p xs) ≡ none) × All (λ r. p r ≡ true → ⊥) xs)
      ⊎ ((a : A) × (least before (where_rows p xs) ≡ some a)
          × (p a ≡ true)
          × All (λ r. p r ≡ true → before a r ≡ true) xs)
  least_where = least_where_go (where_rows p xs) refl

module _ {ℓ κ} {A : Type ℓ} (P : A → Type κ) where
  pub All-always : ((a : A) → P a) → (xs : List A) → All P xs
  All-always h [] = tt
  All-always h (x ∷ xs) = (h x, All-always h xs)

module _ {ℓ} {A : Type ℓ} where
  -- A row that passes a test is found again among the rows that pass it.
  pub exists-where_rows :
      (p : A → Bool) (xs : List A)
      → All
          (λ r. p r ≡ true → (q : A → Bool) → q r ≡ true → exists_row q (where_rows p xs) ≡ true)
          xs
  exists-where_rows p [] = tt
  exists-where_rows p (x ∷ xs) = (
    λ e q h. rw e (rw h),
    All-map _ _
        (λ r later e q h. elim (Bool-cases (p x)) [
          | inl k ↦ rw k (or_right (q x) (later e q h))
          | inr k ↦ rw k (later e q h)
        ])
        xs (exists-where_rows p xs),
  )

  pub find-eq-some : (p : A → Bool) (xs : List A) {a : A} → find p xs ≡ some a → p a ≡ true
  find-eq-some p [] h = cc
  find-eq-some p (x ∷ xs) {a} h = elim (Bool-cases (p x)) [
    | inl e ↦ let same : some x ≡ some a = (rw e at h) in rw (← some-injective _ _ same) e
    | inr e ↦ find-eq-some p xs (rw e at h)
  ]

  -- A write to the row that a lookup finds is seen by the lookup.
  pub find-update_rows :
      (q : A → Bool) (f : A → A) (xs : List A) {a : A}
      → ((x : A) → q (f x) ≡ q x)
      → find q xs ≡ some a
      → find q (update_rows q f xs) ≡ some (f a)
  find-update_rows q f [] keeps h = cc
  find-update_rows q f (x ∷ xs) {a} keeps h = elim (Bool-cases (q x)) [
    | inl e ↦
        let same : some x ≡ some a = (rw e at h) in
        rw (e, keeps x) (rw e (ap (λ y. some (f y)) (some-injective _ _ same)))
    | inr e ↦ rw e (rw e (find-update_rows q f xs keeps (rw e at h)))
  ]
