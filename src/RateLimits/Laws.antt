-- ===== src/RateLimits/Laws.antt =====
-- The limiter against a record of all admitted calls (packages/market_data/rate_limit.py).
use market_intelligence_lab.Prelude.{
  ℕ, ◌+◌, ◌≤◌, ◌≡◌, ◌∙◌, sym, ap, refl, inl, inr, Bool, true, false, ◌&&◌, List, [], ◌∷◌, ◌++◌, leb,
  ltb, ◌==◌, if◌then◌else◌, length, where_rows, All, Bool-cases, arith, length-append,
}
use mathlib.Core.Path.{subst}
use market_intelligence_lab.Moments.{Instant, seconds}
use market_intelligence_lab.RateLimits.{Limiter, new_limiter, drop_old, put, allow, allow_all}

-- The admitted calls of a key that are younger than the window.
abbrev pub recent : ℕ → ℕ → Instant → List (ℕ × Instant) → List (ℕ × Instant)
recent key window now log = where_rows (λ c. c.0 == key && ltb now (c.1 + window)) log

-- The answers and the admitted calls of a limiter that forgets nothing: a call is admitted when
-- fewer than `limit` admitted calls of its key are younger than the window.
unfoldable pub decide_all :
    ℕ → ℕ → List (ℕ × Instant) → List (ℕ × Instant) → List Bool × List (ℕ × Instant)
decide_all limit window log [] = ([], log)
decide_all limit window log (c ∷ cs) =
    let admits = decide_all limit window (log ++ (c ∷ [])) cs in
    let refuses = decide_all limit window log cs in
    if ltb (length (recent c.0 window c.1 log)) limit
    then (true ∷ admits.0, admits.1)
    else (false ∷ refuses.0, refuses.1)

-- The clock does not run back.
unfoldable pub IsOrdered : Instant → List (ℕ × Instant) → Type 0
IsOrdered last [] = Unit
IsOrdered last (c ∷ cs) = (last ≤ c.1) × IsOrdered c.1 cs

abbrev pub one_if : Bool → ℕ
one_if b = if b then 1 else 0

drop_old-drop_old :
    (window : ℕ) (before now : Instant) (events : List Instant)
    → before ≤ now
    → drop_old window now (drop_old window before events) ≡ drop_old window now events
unfolding drop_old
drop_old-drop_old window before now [] h = refl
drop_old-drop_old window before now (e ∷ es) h = elim (Bool-cases (leb (e + window) before)) [
  | inl k ↦
      let older : leb (e + window) now ≡ true = ground arith in
      rw k (rw older (drop_old-drop_old window before now es h))
  | inr k ↦ rw k refl
]

All-drop_old {κ} :
    (P : Instant → Type κ) (window : ℕ) (now : Instant) (events : List Instant)
    → All P events
    → All P (drop_old window now events)
unfolding drop_old
All-drop_old P window now [] h = tt
All-drop_old P window now (e ∷ es) h = elim (Bool-cases (leb (e + window) now)) [
  | inl k ↦ rw k (All-drop_old P window now es h.1)
  | inr k ↦ rw k h
]

-- A newest event counts while it is younger than the window.
drop_old-append :
    (window : ℕ) (now x : Instant) (events : List Instant)
    → All (λ e. e ≤ x) events
    → length (drop_old window now (events ++ (x ∷ [])))
      ≡ length (drop_old window now events) + one_if (ltb now (x + window))
unfolding drop_old
drop_old-append window now x [] h = ground arith
drop_old-append window now x (e ∷ es) h = elim (Bool-cases (leb (e + window) now)) [
  | inl k ↦ rw k (drop_old-append window now x es h.1)
  | inr k ↦
      let earlier = h.0 in
      let young : ltb now (x + window) ≡ true = ground arith in
      rw k (rw young (length-append (e ∷ es) (x ∷ [])))
]

-- An admitted call counts for its own key while it is younger than the window.
recent-append :
    (key window : ℕ) (now : Instant) (log : List (ℕ × Instant)) (c : ℕ × Instant)
    → length (recent key window now (log ++ (c ∷ [])))
      ≡ length (recent key window now log) + one_if (c.0 == key && ltb now (c.1 + window))
recent-append key window now [] c = ground arith
recent-append key window now (d ∷ log) c =
    let rest = recent-append key window now log c in ground (arith, rest)

-- What the limiter keeps of the log, from a time on.
record IsFaithful (last : Instant) (l : Limiter) (log : List (ℕ × Instant)) : Type 0 where
  counts :
      (key : ℕ) (now : Instant)
      → last ≤ now
      → length (recent key l.window now log) ≡ length (drop_old l.window now (l.events key))
  past : (key : ℕ) → All (λ e. e ≤ last) (l.events key)

All-later :
    (a b : Instant) (events : List Instant)
    → a ≤ b
    → All (λ e. e ≤ a) events
    → All (λ e. e ≤ b) events
All-later a b [] h k = tt
All-later a b (e ∷ es) h k = ((let first = k.0 in omega arith), All-later a b es h k.1)

All-append_one {κ} :
    (P : Instant → Type κ) (events : List Instant) (x : Instant)
    → All P events
    → P x
    → All P (events ++ (x ∷ []))
All-append_one P [] x h k = (k, tt)
All-append_one P (e ∷ es) x h k = (h.0, All-append_one P es x h.1 k)

-- A call that is refused drops old events only.
IsFaithful-refused :
    (last now : Instant) (key : ℕ) (l : Limiter) (log : List (ℕ × Instant))
    → last ≤ now
    → IsFaithful last l log
    → IsFaithful now
        (record l { events = put key (drop_old l.window now (l.events key)) l.events })
        log
IsFaithful-refused last now key l log h good = record {
  counts = λ k later w. elim (Bool-cases (k == key)) [
    | inl e ↦
        let same : k ≡ key = ground arith in
        rw e (
          good.counts k later (omega arith)
          ∙ rw same (sym (ap length (drop_old-drop_old l.window now later (l.events key) w))))
    | inr e ↦ rw e (good.counts k later (omega arith))
  ];
  past = λ k. elim (Bool-cases (k == key)) [
    | inl e ↦ rw e (
        All-drop_old (λ x. x ≤ now) l.window now (l.events key)
          (All-later last now (l.events key) h (good.past key)))
    | inr e ↦ rw e (All-later last now (l.events k) h (good.past k))
  ];
}

-- A call that is admitted is one event of its key more.
IsFaithful-admitted :
    (now : Instant) (key : ℕ) (kept : List Instant) (l : Limiter) (log : List (ℕ × Instant))
    → IsFaithful now (record l { events = put key kept l.events }) log
    → IsFaithful now
        (record l { events = put key (kept ++ (now ∷ [])) l.events })
        (log ++ ((key, now) ∷ []))
IsFaithful-admitted now key kept l log good =
    let own : (key == key) ≡ true = ground arith in
    let at_key : put key kept l.events key ≡ kept = rw own refl in
    let earlier : All (λ e. e ≤ now) kept =
      subst (λ es. All (λ e. e ≤ now) es) at_key (good.past key) in
    record {
      counts = λ k later w. elim (Bool-cases (k == key)) [
        | inl e ↦
            let known : (key == k) ≡ true = ground arith in
            let logged = recent-append k l.window later log (key, now) in
            let appended = drop_old-append l.window later now kept earlier in
            let before = good.counts k later w in
            rw e (
              (rw known at logged)
              ∙ ap (λ n. n + one_if (ltb later (now + l.window))) (rw e at before)
              ∙ sym appended)
        | inr e ↦
            let other : (key == k) ≡ false = ground arith in
            let logged = recent-append k l.window later log (key, now) in
            let before = good.counts k later w in
            rw e ((rw other at logged) ∙ (omega arith) ∙ (rw e at before))
      ];
      past = λ k. elim (Bool-cases (k == key)) [
        | inl e ↦ rw e (All-append_one (λ x. x ≤ now) kept now earlier (omega arith))
        | inr e ↦ (let before = good.past k in rw e (rw e at before))
      ];
    }

-- The limiter answers a sequence of calls as the record of all admitted calls does.
allow_all-decide_all :
    (last : Instant) (calls : List (ℕ × Instant)) (l : Limiter) (log : List (ℕ × Instant))
    → IsOrdered last calls
    → IsFaithful last l log
    → allow_all calls l ≡ (decide_all l.limit l.window log calls).0
unfolding allow_all allow decide_all IsOrdered
allow_all-decide_all last [] l log h good = refl
allow_all-decide_all last (c ∷ cs) l log h good =
    let counted = good.counts c.0 c.1 h.0 in
    let cleared = IsFaithful-refused last c.1 c.0 l log h.0 good in
    elim (Bool-cases (ltb (length (recent c.0 l.window c.1 log)) l.limit)) [
      | inl e ↦
          let room : leb l.limit (length (drop_old l.window c.1 (l.events c.0))) ≡ false =
            ground arith in
          rw e (
            rw room (
              ap (λ xs. true ∷ xs)
                (allow_all-decide_all c.1 cs _ (log ++ (c ∷ [])) h.1 (
                  IsFaithful-admitted c.1 c.0 (drop_old l.window c.1 (l.events c.0)) l log
                    cleared))))
      | inr e ↦
          let full : leb l.limit (length (drop_old l.window c.1 (l.events c.0))) ≡ true =
            ground arith in
          rw e (rw full (ap (λ xs. false ∷ xs) (allow_all-decide_all c.1 cs _ log h.1 cleared)))
    ]

-- When the clock does not run back, a new limiter answers every sequence of calls as one that
-- forgets nothing does: it admits a call exactly when fewer than `limit` of the admitted calls of
-- that key are younger than the window, whatever the calls of other keys.
pub allow_all_lem :
    (limit window_seconds : ℕ) (start : Instant) (calls : List (ℕ × Instant))
    → IsOrdered start calls
    → allow_all calls (new_limiter limit window_seconds)
      ≡ (decide_all limit (seconds window_seconds) [] calls).0
unfolding drop_old
allow_all_lem limit window_seconds start calls h =
    allow_all-decide_all start calls (new_limiter limit window_seconds) [] h
      (record { counts = λ key now w. refl; past = λ key. tt })
