-- ===== src/Auth/Throttle.antt =====
-- The rate buckets of a sign-in (packages/auth/native.py, `throttle`).
pub mod Counts
pub mod Laws
use Prim.Native.String.{String}
use text.Mathlib.Text.{◌==◌ as str_eq}
use market_intelligence_lab.Prelude.{
  ℕ, ◌+◌, Bool, true, false, ◌&&◌, ◌||◌, not, List, [], ◌∷◌, leb, exists_row, where_rows,
  update_rows, if◌then◌else◌,
}
use market_intelligence_lab.Moments.{Instant, seconds}

pub record Bucket : Type 0 where
  pub key : String
  pub attempts : ℕ
  pub expires_at : Instant

-- A bucket's key with its limit.
abbrev pub Limit : Type 0
Limit = String × ℕ

abbrev fresh_bucket : Instant → String → Bucket
fresh_bucket now key = record { key = key; attempts = 0; expires_at = now + seconds 60 }

-- The upsert: a row for the global key there must be.
abbrev with_global : Instant → List Bucket → List Bucket
with_global now rows =
    if exists_row (λ (b : Bucket). str_eq b.key "global") rows
    then rows
    else fresh_bucket now "global" ∷ rows

-- The delete of expired rows other than the global one.
abbrev drop_expired : Instant → List Bucket → List Bucket
drop_expired now rows = where_rows (λ b. str_eq b.key "global" || not (leb b.expires_at now)) rows

-- One turn of the loop: the row is added, or begins its window again.
abbrev prepare : Instant → String → List Bucket → List Bucket
prepare now key rows =
    if exists_row (λ (b : Bucket). str_eq b.key key) rows
    then update_rows (λ b. str_eq b.key key && leb b.expires_at now)
        (λ b. record b { attempts = 0; expires_at = now + seconds 60 }) rows
    else fresh_bucket now key ∷ rows

abbrev prepare_all : Instant → List Limit → List Bucket → List Bucket
prepare_all now [] rows = rows
prepare_all now ((key, limit) ∷ ls) rows = prepare_all now ls (prepare now key rows)

abbrev is_limited : List Limit → List Bucket → Bool
is_limited [] rows = false
is_limited ((key, limit) ∷ ls) rows =
    exists_row (λ b. str_eq b.key key && leb limit b.attempts) rows || is_limited ls rows

abbrev is_keyed : List Limit → Bucket → Bool
is_keyed [] b = false
is_keyed ((key, limit) ∷ ls) b = str_eq b.key key || is_keyed ls b

-- Whether the sign-in is refused as busy, and the buckets; all three are counted up together.
unfoldable pub throttle : Instant → List Limit → List Bucket → Bool × List Bucket
throttle now limits rows =
    let ready = prepare_all now limits (drop_expired now (with_global now rows)) in
    if is_limited limits ready
    then (true, ready)
    else (false, update_rows (is_keyed limits) (λ b. record b { attempts = b.attempts + 1 }) ready)
