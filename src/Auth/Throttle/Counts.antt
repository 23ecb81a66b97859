-- ===== src/Auth/Throttle/Counts.antt =====
-- What a sign-in counts (packages/auth/native.py, `throttle`).
use Prim.Native.String.{String}
use text.Mathlib.Text.{◌==◌ as str_eq}
use text.Mathlib.TextPositions.{eq_refl}
use market_intelligence_lab.Prelude.{
  ℕ, ◌+◌, ◌≤◌, ◌<◌, ◌≡◌, ◌∙◌, ap, refl, inl, inr, Bool, true, false, ◌&&◌, ◌||◌, not, List, [], ◌∷◌,
  arith, leb, All, All-map, if◌then◌else◌, exists_row, update_rows, Bool-cases,
}
use market_intelligence_lab.Moments.{Instant, seconds}
use market_intelligence_lab.Auth.Throttle.{
  Bucket, Limit, is_limited, is_keyed, prepare, prepare_all, drop_expired, with_global,
}

-- The uses that a bucket's row holds for a key at a time: none when its window is over.
abbrev pub row_uses : String → Instant → Bucket → ℕ
row_uses key now b = if str_eq b.key key && not (leb b.expires_at now) then b.attempts else 0

abbrev pub uses : String → Instant → List Bucket → ℕ
uses key now [] = 0
uses key now (b ∷ rows) = row_uses key now b + uses key now rows

module _ (key : String) (now : Instant) where
  uses-with_global : (rows : List Bucket) → uses key now (with_global now rows) ≡ uses key now rows
  uses-with_global rows =
      elim (Bool-cases (exists_row (λ (b : Bucket). str_eq b.key "global") rows)) [
        | inl e ↦ rw e refl
        | inr e ↦ rw e (ground arith)
      ]

  uses-drop_expired :
      (rows : List Bucket) → uses key now (drop_expired now rows) ≡ uses key now rows
  uses-drop_expired [] = refl
  uses-drop_expired (b ∷ rows) = (let rest = uses-drop_expired rows in ground arith)

  uses-renewed :
      (q : Bucket → Bool) (rows : List Bucket)
      → uses key now (
          update_rows
            (λ b. q b && leb b.expires_at now)
            (λ b. record b { attempts = 0; expires_at = now + seconds 60 })
            rows)
        ≡ uses key now rows
  uses-renewed q [] = refl
  uses-renewed q (b ∷ rows) = (let rest = uses-renewed q rows in ground arith)

  uses-prepare :
      (k : String) (rows : List Bucket) → uses key now (prepare now k rows) ≡ uses key now rows
  uses-prepare k rows = elim (Bool-cases (exists_row (λ (b : Bucket). str_eq b.key k) rows)) [
    | inl e ↦ rw e (uses-renewed (λ b. str_eq b.key k) rows)
    | inr e ↦ rw e (ground arith)
  ]

  uses-prepare_all :
      (ls : List Limit) (rows : List Bucket)
      → uses key now (prepare_all now ls rows) ≡ uses key now rows
  uses-prepare_all [] rows = refl
  uses-prepare_all ((k, limit) ∷ ls) rows =
      uses-prepare_all ls (prepare now k rows) ∙ uses-prepare k rows

  -- What is ready for the test holds the uses there were.
  pub uses-ready :
      (ls : List Limit) (rows : List Bucket)
      → uses key now (prepare_all now ls (drop_expired now (with_global now rows)))
        ≡ uses key now rows
  uses-ready ls rows =
      uses-prepare_all ls (drop_expired now (with_global now rows))
      ∙ uses-drop_expired (with_global now rows)
      ∙ uses-with_global rows

  -- Every row of the key is in its window.
  abbrev pub is_current : Bucket → Bool
  is_current b = not (str_eq b.key key) || not (leb b.expires_at now)

  abbrev pub IsReady : List Bucket → Type 0
  IsReady rows =
      All (λ b. is_current b ≡ true) rows × (exists_row (λ b. str_eq b.key key) rows ≡ true)

  All-renewed :
      (rows : List Bucket)
      → All
          (λ b. is_current b ≡ true)
          (update_rows
            (λ b. str_eq b.key key && leb b.expires_at now)
            (λ b. record b { attempts = 0; expires_at = now + seconds 60 })
            rows)
  All-renewed [] = tt
  All-renewed (b ∷ rows) = elim (Bool-cases (str_eq b.key key && leb b.expires_at now)) [
    | inl e ↦ rw e (ground arith, All-renewed rows)
    | inr e ↦ rw e (ground arith, All-renewed rows)
  ]

  exists-renewed :
      (q : Bucket → Bool) (rows : List Bucket)
      → exists_row
          (λ b. str_eq b.key key)
          (update_rows q (λ b. record b { attempts = 0; expires_at = now + seconds 60 }) rows)
        ≡ exists_row (λ b. str_eq b.key key) rows
  exists-renewed q [] = refl
  exists-renewed q (b ∷ rows) = elim (Bool-cases (q b)) [
    | inl e ↦ rw e (ap (λ x. str_eq b.key key || x) (exists-renewed q rows))
    | inr e ↦ rw e (ap (λ x. str_eq b.key key || x) (exists-renewed q rows))
  ]

  All-absent :
      (rows : List Bucket)
      → exists_row (λ (b : Bucket). str_eq b.key key) rows ≡ false
      → All (λ b. is_current b ≡ true) rows
  All-absent [] h = tt
  All-absent (b ∷ rows) h = (ground arith, All-absent rows (ground arith))

  IsReady-prepare : (rows : List Bucket) → IsReady (prepare now key rows)
  IsReady-prepare rows = elim (Bool-cases (exists_row (λ (b : Bucket). str_eq b.key key) rows)) [
    | inl e ↦ rw e (All-renewed rows, exists-renewed _ rows ∙ e)
    | inr e ↦ rw e ((ground arith, All-absent rows e), rw (eq_refl key) refl)
  ]

  All-other :
      (q : Bucket → Bool) (rows : List Bucket)
      → All (λ b. is_current b ≡ true) rows
      → All
          (λ b. is_current b ≡ true)
          (update_rows q (λ b. record b { attempts = 0; expires_at = now + seconds 60 }) rows)
  All-other q [] h = tt
  All-other q (b ∷ rows) h = elim (Bool-cases (q b)) [
    | inl e ↦ rw e (ground arith, All-other q rows h.1)
    | inr e ↦ rw e (h.0, All-other q rows h.1)
  ]

  IsReady-other : (k : String) (rows : List Bucket) → IsReady rows → IsReady (prepare now k rows)
  IsReady-other k rows h = elim (Bool-cases (exists_row (λ (b : Bucket). str_eq b.key k) rows)) [
    | inl e ↦ rw e (All-other _ rows h.0, exists-renewed _ rows ∙ h.1)
    | inr e ↦ (let there = h.1 in rw e ((ground arith, h.0), ground arith))
  ]

  pub IsReady-prepare_all :
      (ls : List Limit) (rows : List Bucket) → IsReady rows → IsReady (prepare_all now ls rows)
  IsReady-prepare_all [] rows h = h
  IsReady-prepare_all ((k, limit) ∷ ls) rows h =
      IsReady-prepare_all ls (prepare now k rows) (IsReady-other k rows h)

  uses-grown :
      (q : Bucket → Bool) (rows : List Bucket)
      → uses key now rows
        ≤ uses key now (update_rows q (λ b. record b { attempts = b.attempts + 1 }) rows)
  uses-grown q [] = omega arith
  uses-grown q (b ∷ rows) = (let rest = uses-grown q rows in ground arith)

  -- A use of a key's rows is counted.
  pub uses-counted :
      (q : Bucket → Bool) (rows : List Bucket)
      → ((b : Bucket) → str_eq b.key key ≡ true → q b ≡ true)
      → IsReady rows
      → uses key now rows + 1
        ≤ uses key now (update_rows q (λ b. record b { attempts = b.attempts + 1 }) rows)
  uses-counted q [] h r = cc
  uses-counted q (b ∷ rows) h r = elim (Bool-cases (str_eq b.key key)) [
    | inl e ↦
        let counts = h b e in
        let current = r.0.0 in let rest = uses-grown q rows in rw counts (ground arith)
    | inr e ↦
        let there = r.1 in let rest = uses-counted q rows h (r.0.1, ground arith) in ground arith
  ]

  -- Below its limit a key does not refuse.
  pub not_limited :
      (limit : ℕ) (rows : List Bucket)
      → All (λ b. is_current b ≡ true) rows
      → uses key now rows < limit
      → exists_row (λ b. str_eq b.key key && leb limit b.attempts) rows ≡ false
  not_limited limit [] h k = refl
  not_limited limit (b ∷ rows) h k =
      let current = h.0 in let rest = not_limited limit rows h.1 (omega arith) in ground arith

-- Every limit's key is ready for the test.
pub All-IsReady :
    (now : Instant) (ls : List Limit) (rows : List Bucket)
    → All (λ l. IsReady l.0 now (prepare_all now ls rows)) ls
All-IsReady now [] rows = tt
All-IsReady now ((k, limit) ∷ ls) rows = (
  IsReady-prepare_all k now ls (prepare now k rows) (IsReady-prepare k now rows),
  All-IsReady now ls (prepare now k rows),
)

pub is_keyed-own :
    (ls : List Limit) → All (λ l. (b : Bucket) → str_eq b.key l.0 ≡ true → is_keyed ls b ≡ true) ls
is_keyed-own [] = tt
is_keyed-own ((k, limit) ∷ ls) = (
  λ b h. ground arith,
  All-map _ _ (λ l own b h. (let mine = own b h in ground arith)) ls (is_keyed-own ls),
)

pub is_limited-below :
    (now : Instant) (ls : List Limit) (rows : List Bucket)
    → All (λ l. IsReady l.0 now rows) ls
    → All (λ l. uses l.0 now rows < l.1) ls
    → is_limited ls rows ≡ false
is_limited-below now [] rows h k = refl
is_limited-below now ((key, limit) ∷ ls) rows h k =
    let here = not_limited key now limit rows h.0.0 k.0 in
    let rest = is_limited-below now ls rows h.1 k.1 in ground arith
