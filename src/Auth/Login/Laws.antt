-- ===== src/Auth/Login/Laws.antt =====
-- The number of a user's sessions (packages/auth/native.py, `login`).
use Prim.Native.String.{String}
use market_intelligence_lab.Prelude.{
  ℕ, zero, suc, ◌+◌, ◌≤◌, ◌≡◌, ◌∙◌, sym, ap, refl, inl, inr, Bool, true, ◌&&◌, not, Option, none,
  some, List, [], ◌∷◌, ◌++◌, ◌==◌, exists_row, where_rows, sort_rows, insert_sorted, drop, length,
  Bool-cases, arith,
}
use mathlib.Core.Path.{subst}
use market_intelligence_lab.Moments.{Instant}
use market_intelligence_lab.Auth.Throttle.{Limit, throttle}
use market_intelligence_lab.Auth.Sessions.{
  Session, Settings, Store, Credential, Hasher, Refusal, busy, invalid_credentials, profile_of,
  credential_of,
}
use market_intelligence_lab.Auth.Login.{
  newest_first, sessions_of, surplus, without, new_session, unexpired, issue, may_sign_in, sign_in,
  login_of, login,
}

module _ {ℓ} {A : Type ℓ} where
  length-insert_sorted :
      (p : A → Bool) (before : A → A → Bool) (x : A) (xs : List A)
      → length (where_rows p (insert_sorted before x xs)) ≡ length (where_rows p (x ∷ xs))
  length-insert_sorted p before x [] = refl
  length-insert_sorted p before x (y ∷ ys) = elim (Bool-cases (before x y)) [
    | inl e ↦ rw e refl
    | inr e ↦ (let rest = length-insert_sorted p before x ys in rw e (ground arith))
  ]

  -- A sort keeps how many rows pass a test.
  length-sort_rows :
      (p : A → Bool) (before : A → A → Bool) (xs : List A)
      → length (where_rows p (sort_rows before xs)) ≡ length (where_rows p xs)
  length-sort_rows p before [] = refl
  length-sort_rows p before (x ∷ xs) =
      let placed = length-insert_sorted p before x (sort_rows before xs) in
      let rest = length-sort_rows p before xs in ground arith

  -- The rows that pass two tests, in either order.
  where_rows-where_rows :
      (p q : A → Bool) (xs : List A)
      → where_rows p (where_rows q xs) ≡ where_rows q (where_rows p xs)
  where_rows-where_rows p q [] = refl
  where_rows-where_rows p q (x ∷ xs) =
      let rest = where_rows-where_rows p q xs in
      elim (Bool-cases (p x)) [
        | inl e ↦ elim (Bool-cases (q x)) [
          | inl k ↦ rw e (rw k (rw e (ap (λ ys. x ∷ ys) rest)))
          | inr k ↦ rw e (rw k rest)
        ]
        | inr e ↦ elim (Bool-cases (q x)) [
          | inl k ↦ rw e (rw k (rw e rest))
          | inr k ↦ rw e (rw k rest)
        ]
      ]

-- The rows that are not among the surplus are at most as many as those before it.
length-without_after :
    (n : ℕ) (gone rows : List Session)
    → ((r : Session)
        → exists_row (λ g. g.id == r.id) (drop n rows) ≡ true
        → exists_row (λ g. g.id == r.id) gone ≡ true)
    → length (without gone rows) ≤ n
length-without_after n gone [] h = omega arith
length-without_after zero gone (r ∷ rows) h =
    let own : (r.id == r.id) ≡ true = ground arith in
    let known : exists_row (λ g. g.id == r.id) gone ≡ true = h r (rw own refl) in
    let rest =
      length-without_after zero gone rows
        (λ x k. h x (elim (Bool-cases (r.id == x.id)) [ inl e ↦ rw e refl | inr e ↦ rw e k ])) in
    rw known rest
length-without_after (suc n) gone (r ∷ rows) h =
    let rest = length-without_after n gone rows h in ground arith

length-where_append :
    (p : Session → Bool) (rows : List Session) (new : Session)
    → length (where_rows p (rows ++ (new ∷ []))) ≤ length (where_rows p rows) + 1
length-where_append p [] new = ground arith
length-where_append p (r ∷ rows) new = let rest = length-where_append p rows new in ground arith

-- Beside a new session a user keeps nine.
length-issue :
    (now : Instant) (new : Session) (rows : List Session)
    → length (sessions_of new.user_id (issue now new rows)) ≤ 10
unfolding issue
length-issue now new rows =
    let live = unexpired now rows in
    let user = new.user_id in
    let gone = surplus user live in
    let sorted = sort_rows newest_first (sessions_of user live) in
    let kept = without gone live in
    let swapped : sessions_of user kept ≡ without gone (sessions_of user live) =
      where_rows-where_rows (λ r. r.user_id == user)
        (λ r. not (exists_row (λ g. g.id == r.id) gone)) live in
    let counted =
      length-sort_rows (λ r. not (exists_row (λ g. g.id == r.id) gone)) newest_first
        (sessions_of user live) in
    let nine : length (without gone sorted) ≤ 9 = length-without_after 9 gone sorted (λ r h. h) in
    let before : length (sessions_of user kept) ≤ 9 =
      subst (λ n. n ≤ 9) (sym (ap length swapped ∙ sym counted)) nine in
    let one_more = length-where_append (λ r. r.user_id == user) kept new in omega arith

sign_in-eq-none :
    (hasher : Hasher) (limits : String → List Limit) (settings : Settings) (now : Instant) (id : ℕ)
    (digest password : String) (found : Option Credential) (s s' : Store)
    → sign_in hasher limits settings now id digest password found s ≡ (s', none)
    → (c : Credential) × (found ≡ some c)
      × (hasher.matches c.password_hash password ≡ true)
      × (may_sign_in c.version (profile_of c.user_id s) (credential_of c.user_id s) ≡ true)
      × (s' ≡ record s {
        sessions = issue now (new_session settings now id digest c.user_id c.version) s.sessions;
      })
sign_in-eq-none hasher limits settings now id digest password none s s' h =
    let bad : ◌≡◌ {A = Option Refusal} (some invalid_credentials) none = ap (λ t. t.1) h in cc
sign_in-eq-none hasher limits settings now id digest password (some c) s s' h =
    elim (Bool-cases (
      hasher.matches c.password_hash password
      && may_sign_in c.version (profile_of c.user_id s) (credential_of c.user_id s))) [
        | inl e ↦
            let granted = (rw e at h) in
            let matched : hasher.matches c.password_hash password ≡ true = ground arith in
            let allowed : may_sign_in c.version (profile_of c.user_id s) (credential_of c.user_id s)
                ≡ true =
              ground arith in
            (c, refl, matched, allowed, sym (ap (λ t. t.0) granted))
        | inr e ↦
            let bad : ◌≡◌ {A = Option Refusal} (some invalid_credentials) none =
              ap (λ t. t.1) (rw e at h) in
            cc
      ]

-- What a sign-in that succeeds has checked and written.
pub login-eq-none :
    (hasher : Hasher) (limits : String → List Limit) (settings : Settings) (now : Instant) (id : ℕ)
    (digest identifier password : String) (s s' : Store)
    → login hasher limits settings now id digest identifier password s ≡ (s', none)
    → (c : Credential) × (login_of identifier s.credentials ≡ some c)
      × (hasher.matches c.password_hash password ≡ true)
      × (may_sign_in c.version (profile_of c.user_id s) (credential_of c.user_id s) ≡ true)
      × (s' ≡ record s {
        buckets = (throttle now (limits identifier) s.buckets).1;
        sessions = issue now (new_session settings now id digest c.user_id c.version) s.sessions;
      })
unfolding login
login-eq-none hasher limits settings now id digest identifier password s s' h =
    let (limited, rows) = throttle now (limits identifier) s.buckets in
    elim (Bool-cases limited) [
      | inl e ↦
          let bad : ◌≡◌ {A = Option Refusal} (some busy) none = ap (λ t. t.1) (rw e at h) in cc
      | inr e ↦
          sign_in-eq-none hasher limits settings now id digest password
            (login_of identifier s.credentials) (record s { buckets = rows }) s' (rw e at h)
    ]

-- A sign-in that succeeds was for the login's credential and its password, and leaves that user
-- with at most ten sessions.
pub login_bounded :
    (hasher : Hasher) (limits : String → List Limit) (settings : Settings) (now : Instant) (id : ℕ)
    (digest identifier password : String) (s s' : Store)
    → login hasher limits settings now id digest identifier password s ≡ (s', none)
    → (c : Credential) × (login_of identifier s.credentials ≡ some c)
      × (hasher.matches c.password_hash password ≡ true)
      × (length (sessions_of c.user_id s'.sessions) ≤ 10)
login_bounded hasher limits settings now id digest identifier password s s' h =
    let (c, found, matched, allowed, after) =
      login-eq-none hasher limits settings now id digest identifier password s s' h in
    (
      c,
      found,
      matched,
      subst (λ t. length (sessions_of c.user_id t.sessions) ≤ 10) (sym after)
          (length-issue now (new_session settings now id digest c.user_id c.version) s.sessions),
    )
