-- ===== src/Operations/Freshness/Laws.antt =====
-- Freshness only falls as time passes, and a market calendar never makes data look staler.
use market_intelligence_lab.Prelude.{
  ℕ, zero, suc, ◌+◌, ◌-◌, ◌≤◌, ◌<◌, ◌≡◌, refl, ◌⊎◌, inl, inr, max, Bool, true, false, Option, none,
  some, List, arith, ltb, leb, Bool-cases, ◌↔◌,
}
use market_intelligence_lab.Moments.{Instant, days, date_of, end_of_day, end_of_day_bounds}
use market_intelligence_lab.Operations.Freshness.{
  Freshness, provider_delayed, unknown, current, due, stale, very_stale, Promise, is_closed,
  last_open, grade, grade_at, calculate_freshness,
}

-- How stale a grade is.
abbrev pub staleness : Freshness → ℕ
staleness provider_delayed = 0
staleness unknown = 0
staleness current = 0
staleness due = 1
staleness stale = 2
staleness very_stale = 3

grade_mono : (p : Promise) (s t : Instant) → s ≤ t → staleness (grade p s) ≤ staleness (grade p t)
unfolding grade
grade_mono p s t h = ground arith

module _ (holidays : List ℕ) where
  shut_at : (d e : ℕ) → is_closed holidays d ≡ true → e ≡ d → is_closed holidays e ≡ true
  shut_at d e h same = rw same h

  shut_below_suc :
      (d e : ℕ)
      → is_closed holidays (suc d) ≡ true
      → (e ≤ d → is_closed holidays e ≡ true)
      → e ≤ suc d
      → is_closed holidays e ≡ true
  shut_below_suc d e top below h = elim (Bool-cases (leb e d)) [
    | inl le ↦ below (ground arith)
    | inr gt ↦ shut_at (suc d) e top (ground arith)
  ]

  -- The probe ends on the latest open day that is not after its start; without one, and only then,
  -- it runs off the calendar.
  pub last_open_lem :
      (d : ℕ)
      → ((probe : ℕ) × (last_open holidays d ≡ some probe)
          × (probe ≤ d)
          × (is_closed holidays probe ≡ false)
          × ((e : ℕ) → probe < e → e ≤ d → is_closed holidays e ≡ true))
        ⊎ ((last_open holidays d ≡ none) × ((e : ℕ) → e ≤ d → is_closed holidays e ≡ true))
  unfolding last_open
  last_open_lem zero = elim (Bool-cases (is_closed holidays zero)) [
    | inl shut ↦ inr (rw shut, λ e h. shut_at zero e shut (omega arith))
    | inr opens ↦ inl (zero, rw opens, omega arith, opens, λ e h k. absurd (omega arith))
  ]
  last_open_lem (suc d) = elim (Bool-cases (is_closed holidays (suc d))) [
    | inr opens ↦ inl (suc d, rw opens, omega arith, opens, λ e h k. absurd (omega arith))
    | inl shut ↦ elim (last_open_lem d) [
      | inl (probe, found, before, opens, between) ↦ inl (
        probe,
        (rw shut found),
        omega arith,
        opens,
        λ e h k. shut_below_suc d e shut (between e h) k,
      )
      | inr (missing, all) ↦ inr (rw shut missing, λ e h. shut_below_suc d e shut (all e) h)
    ]
  ]

  grade_at-le :
      (p : Promise) (now : Instant) (probe : Option ℕ) (f : Freshness)
      → grade_at p now probe ≡ some f
      → staleness f ≤ staleness (grade p now)
  unfolding grade_at
  grade_at-le p now none f e = cc
  grade_at-le p now (some probe) f e = elim (Bool-cases (ltb probe (date_of now))) [
    | inr today ↦ ground arith
    | inl behind ↦
        let past : end_of_day probe < now = end_of_day_bounds probe now (ground arith) in
        ground (arith, grade_mono p (end_of_day probe) now (omega arith))
  ]

  -- With the market calendar a dataset is never graded staler than without it.
  pub calendar_not_staler :
      (now : Instant) (last expected after : Option Instant) (is_delayed : Bool) (f g : Freshness)
      → calculate_freshness now last expected after true is_delayed holidays ≡ some f
      → calculate_freshness now last expected after false is_delayed holidays ≡ some g
      → staleness f ≤ staleness g
  unfolding calculate_freshness
  calendar_not_staler now (some l) (some e) (some s) false f g h k =
      let p : Promise = record { last_success = l; expected_next = e; stale_after = s } in
      ground (arith, grade_at-le p now (last_open holidays (date_of now)) f h)
  calendar_not_staler now (some l) (some e) (some s) true f g h k = ground arith
  calendar_not_staler now none e s d f g h k = ground arith
  calendar_not_staler now (some l) none s d f g h k = ground arith
  calendar_not_staler now (some l) (some e) none d f g h k = ground arith

  -- Off the calendar a dataset's grade is always found, and it only gets staler as time passes.
  pub calculate_freshness_mono :
      (now later : Instant) (last expected after : Option Instant) (is_delayed : Bool)
      → now ≤ later
      → (f g : Freshness) × (calculate_freshness now last expected after false is_delayed holidays
          ≡ some f)
        × (calculate_freshness later last expected after false is_delayed holidays ≡ some g)
        × (staleness f ≤ staleness g)
  unfolding calculate_freshness
  calculate_freshness_mono now later last expected after true h =
      (provider_delayed, provider_delayed, refl, refl, omega arith)
  calculate_freshness_mono now later (some l) (some e) (some s) false h =
      let p : Promise = record { last_success = l; expected_next = e; stale_after = s } in
      (grade p now, grade p later, refl, refl, grade_mono p now later h)
  calculate_freshness_mono now later none e s false h = (unknown, unknown, refl, refl, omega arith)
  calculate_freshness_mono now later (some l) none s false h =
      (unknown, unknown, refl, refl, omega arith)
  calculate_freshness_mono now later (some l) (some e) none false h =
      (unknown, unknown, refl, refl, omega arith)

  -- The four grades of a dataset whose times are known and in order, by exact instants; the very
  -- stale one begins a grace period of at least a day after the stale one.
  pub calculate_freshness_thresholds :
      (now l e s : Instant)
      → e ≤ s
      → (f : Freshness) × (calculate_freshness now (some l) (some e) (some s) false false holidays
          ≡ some f)
        × ((f ≡ current) ↔ (now ≤ e))
        × ((f ≡ due) ↔ ((e < now) × (now ≤ s)))
        × ((f ≡ stale) ↔ ((s < now) × (now ≤ s + max (s - e) (days 1))))
        × ((f ≡ very_stale) ↔ (s + max (s - e) (days 1) < now))
  unfolding calculate_freshness
  calculate_freshness_thresholds now l e s h =
      let p : Promise = record { last_success = l; expected_next = e; stale_after = s } in
      (grade p now, refl, ground arith, ground arith, ground arith, ground arith)

  -- On a closed day a dataset that was refreshed on the last open day, or later, is current.
  pub closed_day_current :
      (now l e s : Instant) (probe : ℕ)
      → last_open holidays (date_of now) ≡ some probe
      → probe < date_of now
      → probe ≤ date_of l
      → calculate_freshness now (some l) (some e) (some s) true false holidays ≡ some current
  unfolding calculate_freshness
  closed_day_current now l e s probe found behind fresh = rw (found, grade_at) (ground arith)
