-- ===== src/RateLimits/Tests.antt =====
-- Sample calls of the limiter: two of one key a minute.
use market_intelligence_lab.Prelude.{ℕ, ◌≤◌, ◌≡◌, refl, true, false, List, [], ◌∷◌, length, arith}
use market_intelligence_lab.Moments.{Instant, seconds}
use market_intelligence_lab.RateLimits.{new_limiter, drop_old, allow, allow_all}
use market_intelligence_lab.RateLimits.Laws.{decide_all, IsOrdered, allow_all_lem}
use market_intelligence_lab.RateLimits.Bounds.{within, admitted, allow_all_bounded}

abbrev calls : List (ℕ × Instant)
calls = (1, seconds 10) ∷ (1, seconds 20) ∷ (1, seconds 30) ∷ (2, seconds 31) ∷ (1, seconds 70) ∷ []

calls-IsOrdered : IsOrdered 0 calls
unfolding IsOrdered
calls-IsOrdered = (omega arith, (omega arith, (omega arith, (omega arith, (omega arith, tt)))))

-- The third call of key 1 is refused, the fourth comes when the first is a minute old.
answers : allow_all calls (new_limiter 2 60) ≡ true ∷ true ∷ false ∷ true ∷ true ∷ []
unfolding allow_all allow drop_old
answers = refl

allow_all_lem_example : allow_all calls (new_limiter 2 60) ≡ (decide_all 2 (seconds 60) [] calls).0
allow_all_lem_example = allow_all_lem 2 60 0 calls calls-IsOrdered

allow_all_bounded_example :
    length
      (within 1 (seconds 60) (seconds 10) (admitted (allow_all calls (new_limiter 2 60)) calls))
    ≤ 2
allow_all_bounded_example = allow_all_bounded 2 60 0 calls 1 (seconds 10) calls-IsOrdered
