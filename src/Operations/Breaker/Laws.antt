-- ===== src/Operations/Breaker/Laws.antt =====
-- What a provider's circuit breaker promises.
use market_intelligence_lab.Prelude.{
  ℕ, ◌+◌, ◌≤◌, ◌<◌, ◌≡◌, ◌↔◌, ap, refl, Bool, true, false, Option, some, arith, if◌then◌else◌,
  or_else, is_some, List, [], ◌∷◌, length, leb, inl, inr, Bool-cases, leb→le, ◌∙◌,
}
use market_intelligence_lab.Moments.{Instant, seconds}
use market_intelligence_lab.Operations.Breaker.{
  Breaker, BreakerState, closed, opened, half_open, BreakerPolicy, ErrorCategory,
  circuit_allows_request, record_provider_result,
}

abbrev pub is_tripped : Option BreakerState → Bool
is_tripped (some opened) = true
is_tripped (some half_open) = true
is_tripped _ = false

-- A breaker is open or probing exactly when its failures have reached the threshold, and then knows
-- when to probe.
pub record IsSound (threshold : ℕ) (b : Breaker) : Type 0 where
  pub counted : is_tripped b.state ≡ true → threshold ≤ or_else b.consecutive_failures 0
  pub tripped : threshold ≤ or_else b.consecutive_failures 0 → is_tripped b.state ≡ true
  pub scheduled : is_tripped b.state ≡ true → is_some b.next_probe_at ≡ true

pub circuit_allows_request-IsSound :
    (n : ℕ) (b : Breaker) (now : Instant) → IsSound n b → IsSound n (circuit_allows_request b now).0
unfolding circuit_allows_request
circuit_allows_request-IsSound n b now h = ground arith

pub record_provider_result-IsSound :
    (p : BreakerPolicy) (b : Breaker) (ok : Bool) (now : Instant) (c : Option ErrorCategory)
    → 1 ≤ p.failure_threshold
    → IsSound p.failure_threshold b
    → IsSound p.failure_threshold (record_provider_result p b ok now c)
unfolding record_provider_result
record_provider_result-IsSound p b ok now c low h = ground arith

-- One event in a breaker's life: a request is asked for, or a result comes in.
pub data BreakerEvent : Type 0 where
  ask : Instant → BreakerEvent
  result : Bool → Instant → Option ErrorCategory → BreakerEvent

pub handle : BreakerPolicy → Breaker → BreakerEvent → Breaker
handle p b (ask now) = (circuit_allows_request b now).0
handle p b (result ok now c) = record_provider_result p b ok now c

pub replay : BreakerPolicy → Breaker → List BreakerEvent → Breaker
replay p b [] = b
replay p b (e ∷ es) = replay p (handle p b e) es

-- The failures since the last success, after those counted before.
pub failures_since : ℕ → List BreakerEvent → ℕ
failures_since n [] = n
failures_since n (ask now ∷ es) = failures_since n es
failures_since n (result true now c ∷ es) = failures_since 0 es
failures_since n (result false now c ∷ es) = failures_since (n + 1) es

failure_counted :
    (p : BreakerPolicy) (b : Breaker) (now : Instant) (c : Option ErrorCategory)
    → or_else (record_provider_result p b false now c).consecutive_failures 0
      ≡ or_else b.consecutive_failures 0 + 1
unfolding record_provider_result
failure_counted p b now c = ground arith

ask-count :
    (b : Breaker) (now : Instant)
    → or_else (circuit_allows_request b now).0.consecutive_failures 0
      ≡ or_else b.consecutive_failures 0
unfolding circuit_allows_request
ask-count b now = ground arith

replay-failures_since :
    (p : BreakerPolicy) (b : Breaker) (es : List BreakerEvent)
    → or_else (replay p b es).consecutive_failures 0
      ≡ failures_since (or_else b.consecutive_failures 0) es
unfolding replay handle failures_since record_provider_result
replay-failures_since p b [] = refl
replay-failures_since p b (ask now ∷ es) =
    replay-failures_since p (circuit_allows_request b now).0 es
    ∙ ap (λ n. failures_since n es) (ask-count b now)
replay-failures_since p b (result true now c ∷ es) =
    replay-failures_since p (record_provider_result p b true now c) es
replay-failures_since p b (result false now c ∷ es) =
    replay-failures_since p (record_provider_result p b false now c) es
    ∙ ap (λ n. failures_since n es) (failure_counted p b now c)

replay-keeps :
    (p : BreakerPolicy) (b : Breaker) (es : List BreakerEvent)
    → 1 ≤ p.failure_threshold
    → IsSound p.failure_threshold b
    → IsSound p.failure_threshold (replay p b es)
unfolding replay handle
replay-keeps p b [] low h = h
replay-keeps p b (ask now ∷ es) low h =
    replay-keeps p (circuit_allows_request b now).0 es low
      (circuit_allows_request-IsSound p.failure_threshold b now h)
replay-keeps p b (result ok now c ∷ es) low h =
    replay-keeps p (record_provider_result p b ok now c) es low
      (record_provider_result-IsSound p b ok now c low h)

-- Under one policy whose threshold is at least 1, and from a breaker that is open or probing exactly
-- when its count of failures has reached the threshold and that then knows when to probe: after any
-- sequence of requests and results the breaker is again so, and its count is the number of failures
-- since the last success, the starting count added when there was no success.
pub replay-IsSound :
    (p : BreakerPolicy) (b : Breaker) (es : List BreakerEvent)
    → 1 ≤ p.failure_threshold
    → IsSound p.failure_threshold b
    → let count = failures_since (or_else b.consecutive_failures 0) es in
      let last = replay p b es in
      (or_else last.consecutive_failures 0 ≡ count)
      × ((is_tripped last.state ≡ true) ↔ (p.failure_threshold ≤ count))
      × (is_tripped last.state ≡ true → is_some last.next_probe_at ≡ true)
replay-IsSound p b es low h =
    let counts = replay-failures_since p b es in
    let sound = replay-keeps p b es low h in
    (
      counts,
      (λ t. omega (arith, sound.counted t, counts), λ t. sound.tripped (omega (arith, counts))),
      sound.scheduled,
    )

-- A failure that opens the breaker bars every request until the cooldown has passed, and the first
-- request from then on is let through as a probe.
pub opened_bars_requests :
    (p : BreakerPolicy) (b : Breaker) (now later : Instant) (c : Option ErrorCategory)
    → (record_provider_result p b false now c).state ≡ some opened
    → p.failure_threshold ≤ or_else b.consecutive_failures 0 + 1
    → let tripped = record_provider_result p b false now c in
      (later < now + seconds p.cooldown_seconds
        → circuit_allows_request tripped later ≡ (tripped, false))
      × (now + seconds p.cooldown_seconds ≤ later
          → circuit_allows_request tripped later
            ≡ (record tripped { state = some half_open }, true))
unfolding record_provider_result circuit_allows_request
opened_bars_requests p b now later c e h = (λ before. ground arith, λ after. ground arith)

-- Results that all fail.
pub fail_all : BreakerPolicy → Breaker → List (Instant × Option ErrorCategory) → Breaker
fail_all p b [] = b
fail_all p b ((now, c) ∷ fs) = fail_all p (record_provider_result p b false now c) fs

fail_all_tripped :
    (p : BreakerPolicy) (b : Breaker) (fs : List (Instant × Option ErrorCategory))
    → b.state ≡ some opened
    → p.failure_threshold ≤ or_else b.consecutive_failures 0
    → (fail_all p b fs).state ≡ some opened
unfolding fail_all record_provider_result
fail_all_tripped p b [] e h = e
fail_all_tripped p b ((now, c) ∷ fs) e h =
    fail_all_tripped p (record_provider_result p b false now c) fs (ground arith) (ground arith)

failure_state :
    (p : BreakerPolicy) (b : Breaker) (now : Instant) (c : Option ErrorCategory)
    → (record_provider_result p b false now c).state ≡ (
        if leb p.failure_threshold (or_else b.consecutive_failures 0 + 1)
        then some opened
        else b.state)
unfolding record_provider_result
failure_state p b now c = ground arith

-- A closed breaker, its count below the threshold, that is fed only failures opens exactly when the failures, those counted before
-- among them, reach the threshold.
pub fail_all-opened :
    (p : BreakerPolicy) (b : Breaker) (fs : List (Instant × Option ErrorCategory))
    → b.state ≡ some closed
    → or_else b.consecutive_failures 0 < p.failure_threshold
    → ((fail_all p b fs).state ≡ some opened)
      ↔ (p.failure_threshold ≤ or_else b.consecutive_failures 0 + length fs)
unfolding fail_all
fail_all-opened p b [] e h = (λ q. cc, λ q. absurd (omega arith))
fail_all-opened p b ((now, c) ∷ fs) e h =
    let next = record_provider_result p b false now c in
    let count = failure_counted p b now c in
    let state = failure_state p b now c in
    elim (Bool-cases (leb p.failure_threshold (or_else b.consecutive_failures 0 + 1))) [
      | inl t ↦ (
        λ q. omega (arith, leb→le _ _ t),
        λ q. fail_all_tripped p next fs (rw t at state) (omega (arith, leb→le _ _ t)),
      )
      | inr f ↦
          let ih = fail_all-opened p next fs ((rw f at state) ∙ e) (ground arith) in
          (λ q. omega (arith, ih.0 q), λ q. ih.1 (omega arith))
    ]
