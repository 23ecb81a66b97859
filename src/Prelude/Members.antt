-- ===== src/Prelude/Members.antt =====
-- Which rows a table has, and lookups that find nothing.
use mathlib.Core.Path.{◌≡◌, ◌∙◌, sym, ap, sym}
use mathlib.Core.Logic.{inl, inr}
use native.Mathlib.Omega.{arith}
use mathlib.Core.Bool.{Bool, true, false, ◌||◌, not}
use mathlib.Core.Option.{none, some, some-injective}
use mathlib.Core.Path.{subst, refl}
use mathlib.Core.List.{List, [], ◌∷◌, ◌++◌}
pub use mathlib.Core.List.{Memᴰ}
use market_intelligence_lab.Prelude.Tests.{Bool-cases}
use market_intelligence_lab.Prelude.Rows.{
  All, distinct_by, exists_row, find, least, update_rows, where_rows,
}
use market_intelligence_lab.Prelude.RowLaws.{All-least_of, All-where_rows_of}

module _ {ℓ} {A : Type ℓ} where
  pub Memᴰ-append_left : {a : A} (xs ys : List A) → Memᴰ a xs → Memᴰ a (xs ++ ys)
  Memᴰ-append_left [] ys m = elim m [ ]
  Memᴰ-append_left (x ∷ xs) ys (Memᴰ.head e) = Memᴰ.head e
  Memᴰ-append_left (x ∷ xs) ys (Memᴰ.tail m) = Memᴰ.tail (Memᴰ-append_left xs ys m)

  pub Memᴰ-append_right : {a : A} (xs ys : List A) → Memᴰ a ys → Memᴰ a (xs ++ ys)
  Memᴰ-append_right [] ys m = m
  Memᴰ-append_right (x ∷ xs) ys m = Memᴰ.tail (Memᴰ-append_right xs ys m)

  pub All-at {κ} : (P : A → Type κ) (xs : List A) {a : A} → All P xs → Memᴰ a xs → P a
  All-at P [] h m = elim m [ ]
  All-at P (x ∷ xs) h (Memᴰ.head e) = subst P (sym e) h.0
  All-at P (x ∷ xs) h (Memᴰ.tail m) = All-at P xs h.1 m

  -- Every row stands in its own table.
  pub All-Memᴰ_of : (xs ys : List A) → ((a : A) → Memᴰ a xs → Memᴰ a ys) → All (λ a. Memᴰ a ys) xs
  All-Memᴰ_of [] ys h = tt
  All-Memᴰ_of (x ∷ xs) ys h = (h x (Memᴰ.head refl), All-Memᴰ_of xs ys (λ a m. h a (Memᴰ.tail m)))

  pub All-Memᴰ : (xs : List A) → All (λ a. Memᴰ a xs) xs
  All-Memᴰ xs = All-Memᴰ_of xs xs (λ _ m. m)

  pub Memᴰ-find : (p : A → Bool) (xs : List A) {a : A} → find p xs ≡ some a → Memᴰ a xs
  Memᴰ-find p [] h = cc
  Memᴰ-find p (x ∷ xs) {a} h = elim (Bool-cases (p x)) [
    | inl e ↦ let same : some x ≡ some a = (rw e at h) in Memᴰ.head (sym (some-injective _ _ same))
    | inr e ↦ Memᴰ.tail (Memᴰ-find p xs (rw e at h))
  ]

  pub find-eq-none : (p : A → Bool) (xs : List A) → find p xs ≡ none → exists_row p xs ≡ false
  find-eq-none p [] h = refl
  find-eq-none p (x ∷ xs) h = elim (Bool-cases (p x)) [
    | inl e ↦ let bad : some x ≡ none = (rw e at h) in cc
    | inr e ↦ rw e (find-eq-none p xs (rw e at h))
  ]

  pub All-update_rows {κ} :
      (P : A → Type κ) (p : A → Bool) (f : A → A) (xs : List A)
      → ((x : A) → P x → P (f x))
      → All P xs
      → All P (update_rows p f xs)
  All-update_rows P p f [] keep h = tt
  All-update_rows P p f (x ∷ xs) keep h = elim (Bool-cases (p x)) [
    | inl e ↦ rw e (keep x h.0, All-update_rows P p f xs keep h.1)
    | inr e ↦ rw e (h.0, All-update_rows P p f xs keep h.1)
  ]

  pub exists-append_one :
      (p : A → Bool) (xs : List A) (y : A) → exists_row p (xs ++ (y ∷ [])) ≡ exists_row p xs || p y
  exists-append_one p [] y = ground arith
  exists-append_one p (x ∷ xs) y = ground (arith, exists-append_one p xs y)

  pub distinct_by-append_one :
      (same : A → A → Bool) (xs : List A) (y : A)
      → distinct_by same xs ≡ true
      → exists_row (λ x. same x y) xs ≡ false
      → distinct_by same (xs ++ (y ∷ [])) ≡ true
  distinct_by-append_one same [] y d h = refl
  distinct_by-append_one same (x ∷ xs) y d h =
      ground (arith, exists-append_one (same x) xs y, distinct_by-append_one same xs y)

  pub exists-of_Memᴰ :
      (p : A → Bool) (xs : List A) {a : A} → Memᴰ a xs → p a ≡ true → exists_row p xs ≡ true
  exists-of_Memᴰ p [] m h = elim m [ ]
  exists-of_Memᴰ p (x ∷ xs) (Memᴰ.head e) h =
      let here : p x ≡ true = ap p (sym e) ∙ h in rw here refl
  exists-of_Memᴰ p (x ∷ xs) (Memᴰ.tail m) h =
      let later = exists-of_Memᴰ p xs m h in
      elim (Bool-cases (p x)) [ inl e ↦ rw e refl | inr e ↦ rw e later ]

  -- A row that is not written stays.
  pub Memᴰ-update_rows :
      (p : A → Bool) (f : A → A) (xs : List A) {a : A}
      → p a ≡ false
      → Memᴰ a xs
      → Memᴰ a (update_rows p f xs)
  Memᴰ-update_rows p f [] h m = elim m [ ]
  Memᴰ-update_rows p f (x ∷ xs) h (Memᴰ.head e) =
      let other : p x ≡ false = ap p (sym e) ∙ h in rw other (Memᴰ.head e)
  Memᴰ-update_rows p f (x ∷ xs) h (Memᴰ.tail m) = Memᴰ.tail (Memᴰ-update_rows p f xs h m)

  -- What is written to the rows that pass a test.
  pub All-written {κ} :
      (P : A → Type κ) (p : A → Bool) (f : A → A) (rows : List A)
      → ((x : A) → p x ≡ true → P (f x))
      → All (λ a. p a ≡ true → P a) (update_rows p f rows)
  All-written P p f [] h = tt
  All-written P p f (x ∷ xs) h = elim (Bool-cases (p x)) [
    | inl e ↦ rw e ((λ _. h x e), All-written P p f xs h)
    | inr e ↦ rw e ((λ k. (let bad : true ≡ false = sym k ∙ e in cc)), All-written P p f xs h)
  ]

  pub Memᴰ-written :
      (p : A → Bool) (f : A → A) (rows : List A) {a : A}
      → p a ≡ true
      → Memᴰ a rows
      → Memᴰ (f a) (update_rows p f rows)
  Memᴰ-written p f [] h m = elim m [ ]
  Memᴰ-written p f (x ∷ xs) h (Memᴰ.head e) =
      let here : p x ≡ true = ap p (sym e) ∙ h in rw here (Memᴰ.head (ap f e))
  Memᴰ-written p f (x ∷ xs) h (Memᴰ.tail m) = Memᴰ.tail (Memᴰ-written p f xs h m)

  -- The other rows are left as they are.
  pub where_rows-update_rows :
      (p : A → Bool) (f : A → A) (rows : List A)
      → ((x : A) → p x ≡ true → p (f x) ≡ true)
      → where_rows (λ x. not (p x)) (update_rows p f rows) ≡ where_rows (λ x. not (p x)) rows
  where_rows-update_rows p f [] h = refl
  where_rows-update_rows p f (x ∷ xs) h =
      let rest = where_rows-update_rows p f xs h in
      elim (Bool-cases (p x)) [
        | inl e ↦ rw e (rw (h x e) rest)
        | inr e ↦ rw e (rw e (ap (λ ys. x ∷ ys) rest))
      ]

  least-All {κ} :
      (P : A → Type κ) (before : A → A → Bool) (xs : List A) {a : A}
      → All P xs
      → least before xs ≡ some a
      → P a
  least-All P before [] h e = cc
  least-All P before (x ∷ xs) h e =
      subst P (some-injective _ _ e) (All-least_of P before x xs h.0 h.1)

  pub least-Memᴰ :
      (before : A → A → Bool) (p : A → Bool) (rows : List A) {a : A}
      → least before (where_rows p rows) ≡ some a
      → Memᴰ a rows
  least-Memᴰ before p rows {a} h =
      least-All (λ a. Memᴰ a rows) before (where_rows p rows)
        (All-where_rows_of _ p rows (All-Memᴰ rows)) h
