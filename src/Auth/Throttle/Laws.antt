-- ===== src/Auth/Throttle/Laws.antt =====
-- A sign-in that is let through stays within its limits.
use text.Mathlib.Text.{◌==◌ as str_eq}
use market_intelligence_lab.Prelude.{
  ◌+◌, ◌≤◌, ◌<◌, ◌≡◌, refl, All-map, All-zip, Bool, true, false, ◌&&◌, List, [], ◌∷◌, arith, leb,
  All, exists_row, update_rows, Bool-cases, inl, inr,
}
use Prim.Native.String.{String}
use market_intelligence_lab.Moments.{Instant}
use market_intelligence_lab.Auth.Throttle.Counts.{
  uses, uses-ready, uses-counted, All-IsReady, is_keyed-own, is_limited-below,
}
use market_intelligence_lab.Auth.Throttle.{
  Bucket, Limit, throttle, is_limited, is_keyed, prepare_all, drop_expired, with_global,
}

-- No bucket with the limit's key has been used more often than the limit allows.
abbrev pub IsWithin : List Bucket → Limit → Type 0
IsWithin rows l = All (λ b. str_eq b.key l.0 ≡ true → b.attempts ≤ l.1) rows

counted-IsWithin :
    (q : Bucket → Bool) (l : Limit) (rows : List Bucket)
    → exists_row (λ b. str_eq b.key l.0 && leb l.1 b.attempts) rows ≡ false
    → IsWithin (update_rows q (λ b. record b { attempts = b.attempts + 1 }) rows) l
counted-IsWithin q l [] h = tt
counted-IsWithin q l (b ∷ rows) h = (λ same. ground arith, counted-IsWithin q l rows (ground arith))

All-IsWithin :
    (q : Bucket → Bool) (ls : List Limit) (rows : List Bucket)
    → is_limited ls rows ≡ false
    → All (IsWithin (update_rows q (λ b. record b { attempts = b.attempts + 1 }) rows)) ls
All-IsWithin q [] rows h = tt
All-IsWithin q ((key, limit) ∷ ls) rows h =
    (counted-IsWithin q (key, limit) rows (ground arith), All-IsWithin q ls rows (ground arith))

All-counted :
    (now : Instant) (limits : List Limit) (rows : List Bucket)
    → let ready = prepare_all now limits (drop_expired now (with_global now rows)) in
      All
        (λ l.
          uses l.0 now rows + 1
          ≤ uses l.0 now
              (update_rows (is_keyed limits) (λ b. record b { attempts = b.attempts + 1 }) ready))
        limits
All-counted now limits rows =
    let first = drop_expired now (with_global now rows) in
    let ready = prepare_all now limits first in
    All-map _ _
      (λ l both.
        let more = uses-counted l.0 now (is_keyed limits) ready both.1 both.0 in
        let same = uses-ready l.0 now limits rows in omega arith)
      limits (All-zip _ _ limits (All-IsReady now limits first) (is_keyed-own limits))

-- A sign-in that is not refused as busy has been counted, for each of its keys, among the uses of the
-- key's window, and no row of the key has been used more often than its limit, this use included. One
-- that is refused counts for no key. And one that finds the uses of each key's window below its limit
-- is not refused.
pub throttle_lem :
    (now : Instant) (limits : List Limit) (rows : List Bucket)
    → let (busy, rows') = throttle now limits rows in
      (busy ≡ false
        → All (λ l. IsWithin rows' l × (uses l.0 now rows + 1 ≤ uses l.0 now rows')) limits)
      × (busy ≡ true → (key : String) → uses key now rows' ≡ uses key now rows)
      × (All (λ l. uses l.0 now rows < l.1) limits → busy ≡ false)
unfolding throttle
throttle_lem now limits rows =
    let first = drop_expired now (with_global now rows) in
    let ready = prepare_all now limits first in
    elim (Bool-cases (is_limited limits ready)) [
      | inl busy ↦ rw busy (
        λ h. cc,
        λ h key. uses-ready key now limits rows,
        λ below.
            let still =
              All-map _ (λ l. uses l.0 now ready < l.1)
                (λ l h. (let same = uses-ready l.0 now limits rows in omega arith)) limits below in
            let free = is_limited-below now limits ready (All-IsReady now limits first) still in cc,
      )
      | inr free ↦ rw free (
        λ h.
            All-zip _ _ limits (All-IsWithin (is_keyed limits) limits ready free)
              (All-counted now limits rows),
        λ h. cc,
        λ below. refl,
      )
    ]
