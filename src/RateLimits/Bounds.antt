-- ===== src/RateLimits/Bounds.antt =====
-- The bound on what the limiter admits (packages/market_data/rate_limit.py).
use market_intelligence_lab.Prelude.{
  ℕ, ◌+◌, ◌≤◌, ◌≡◌, ◌∙◌, sym, ap, refl, inl, inr, Bool, ◌&&◌, List, [], ◌∷◌, ◌++◌, leb, ltb, ◌==◌,
  if◌then◌else◌, length, where_rows, Bool-cases, arith,
}
use mathlib.Core.Path.{subst}
use market_intelligence_lab.Moments.{Instant, seconds}
use market_intelligence_lab.RateLimits.{new_limiter, allow_all}
use market_intelligence_lab.RateLimits.Laws.{one_if, recent, decide_all, IsOrdered, allow_all_lem}

-- The calls of a key in a span of the window's length.
abbrev pub within : ℕ → ℕ → Instant → List (ℕ × Instant) → List (ℕ × Instant)
within key window from log =
    where_rows (λ c. c.0 == key && (ltb from c.1 && leb c.1 (from + window))) log

within-append :
    (key window : ℕ) (from : Instant) (log : List (ℕ × Instant)) (c : ℕ × Instant)
    → length (within key window from (log ++ (c ∷ [])))
      ≡ length (within key window from log)
        + one_if (c.0 == key && (ltb from c.1 && leb c.1 (from + window)))
within-append key window from [] c = ground arith
within-append key window from (d ∷ log) c =
    let rest = within-append key window from log c in ground (arith, rest)

-- Calls in a span that ends at or after now are younger than the window.
within-recent :
    (key window : ℕ) (from now : Instant) (log : List (ℕ × Instant))
    → now ≤ from + window
    → length (within key window from log) ≤ length (recent key window now log)
within-recent key window from now [] h = omega arith
within-recent key window from now (d ∷ log) h =
    let rest = within-recent key window from now log h in ground (arith, rest)

-- The admitted calls of a key in any span of the window's length are at most `limit`.
within-decide_all :
    (limit window : ℕ) (log calls : List (ℕ × Instant)) (key : ℕ) (from : Instant)
    → length (within key window from log) ≤ limit
    → length (within key window from (decide_all limit window log calls).1) ≤ limit
unfolding decide_all
within-decide_all limit window log [] key from h = h
within-decide_all limit window log (c ∷ cs) key from h =
    elim (Bool-cases (ltb (length (recent c.0 window c.1 log)) limit)) [
      | inl e ↦
          let one_more = within-append key window from log c in
          let bounded : length (within key window from (log ++ (c ∷ []))) ≤ limit =
            elim (Bool-cases (c.0 == key && (ltb from c.1 && leb c.1 (from + window)))) [
              | inl counted ↦
                  let same : c.0 ≡ key = ground arith in
                  let soon : c.1 ≤ from + window = ground arith in
                  let fewer = within-recent key window from c.1 log soon in
                  let room = (rw same at e) in let one = (rw counted at one_more) in ground arith
              | inr uncounted ↦ (let none_more = (rw uncounted at one_more) in omega arith)
            ] in
          rw e (within-decide_all limit window (log ++ (c ∷ [])) cs key from bounded)
      | inr e ↦ rw e (within-decide_all limit window log cs key from h)
    ]

-- The calls that were answered with true.
abbrev pub admitted : List Bool → List (ℕ × Instant) → List (ℕ × Instant)
admitted [] calls = []
admitted (b ∷ bs) [] = []
admitted (b ∷ bs) (c ∷ cs) = if b then c ∷ admitted bs cs else admitted bs cs

append_one-append :
    (xs : List (ℕ × Instant)) (c : ℕ × Instant) (ys : List (ℕ × Instant))
    → (xs ++ (c ∷ [])) ++ ys ≡ xs ++ (c ∷ ys)
append_one-append [] c ys = refl
append_one-append (x ∷ xs) c ys = ap (λ t. x ∷ t) (append_one-append xs c ys)

append-nil : (xs : List (ℕ × Instant)) → xs ≡ xs ++ []
append-nil [] = refl
append-nil (x ∷ xs) = ap (λ t. x ∷ t) (append-nil xs)

admitted-decide_all :
    (limit window : ℕ) (log calls : List (ℕ × Instant))
    → (decide_all limit window log calls).1
      ≡ log ++ admitted (decide_all limit window log calls).0 calls
unfolding decide_all
admitted-decide_all limit window log [] = append-nil log
admitted-decide_all limit window log (c ∷ cs) =
    elim (Bool-cases (ltb (length (recent c.0 window c.1 log)) limit)) [
      | inl e ↦ rw e (
          admitted-decide_all limit window (log ++ (c ∷ [])) cs
          ∙ append_one-append log c (admitted (decide_all limit window (log ++ (c ∷ [])) cs).0 cs))
      | inr e ↦ rw e (admitted-decide_all limit window log cs)
    ]

-- When the clock does not run back, at most `limit` calls of a key are admitted by a new limiter in
-- any span of time of the window's length, its start excluded and its end included.
pub allow_all_bounded :
    (limit window_seconds : ℕ) (start : Instant) (calls : List (ℕ × Instant)) (key : ℕ)
    (from : Instant)
    → IsOrdered start calls
    → length (
        within key
          (seconds window_seconds)
          from
          (admitted (allow_all calls (new_limiter limit window_seconds)) calls))
      ≤ limit
allow_all_bounded limit window_seconds start calls key from h =
    let window = seconds window_seconds in
    let bound = within-decide_all limit window [] calls key from (omega arith) in
    let answers = allow_all_lem limit window_seconds start calls h in
    let log =
      subst (λ xs. length (within key window from xs) ≤ limit)
        (admitted-decide_all limit window [] calls) bound in
    subst (λ bs. length (within key window from (admitted bs calls)) ≤ limit) (sym answers) log
