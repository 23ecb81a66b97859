-- ===== src/Auth/Sessions/Laws.antt =====
-- Who is let in: a live session, and none that a password change or a sign-out revoked.
use Prim.Native.String.{String}
use mathlib.Core.Option.{some-injective}
use mathlib.Core.Path.{subst}
use text.Mathlib.Text.{◌==◌ as str_eq}
use market_intelligence_lab.Prelude.{
  ℕ, ◌+◌, ◌<◌, ◌≡◌, refl, ap, ◌∙◌, Bool, true, false, ◌&&◌, Option, none, some, List, [], ◌∷◌,
  arith, leb, ◌==◌, find, All, update_rows, is_some, inl, inr, Bool-cases, Option-cases,
}
use market_intelligence_lab.Moments.{Instant}
use market_intelligence_lab.Auth.Throttle.{Bucket, Limit, throttle}
use market_intelligence_lab.Auth.Sessions.{
  Profile, Credential, Session, Store, Settings, profile_of, credential_of, is_live, touch,
  admit_session, authenticate, logout, revoke_all, Hasher, replace_password, change_password,
  Changed, may_change, busy, invalid_credentials, invalid_session, bad_password, length_of, finish,
  change_admitted,
}

find-All :
    (P : Session → Type 0) (q : Session → Bool) (rows : List Session) {r : Session}
    → All P rows
    → find q rows ≡ some r
    → P r
find-All P q [] h e = cc
find-All P q (x ∷ xs) {r} h e = elim (Bool-cases (q x)) [
  | inl here ↦
      let found : some x ≡ some r = (rw here at e) in subst P (some-injective _ _ found) h.0
  | inr later ↦ find-All P q xs h.1 (rw later at e)
]

-- A session that is let in was found by its digest, and its user has a credential and a profile.
admit_session-found :
    (settings : Settings) (now : Instant) (s : Store) (active : Session) (c : Option Credential)
    (p : Option Profile) {r : Session} {s' : Store}
    → admit_session settings now s active c p ≡ some (r, s')
    → (credential : Credential) × (profile : Profile) × (c ≡ some credential)
      × (p ≡ some profile)
      × (active ≡ r)
      × (is_live now active credential profile ≡ true)
admit_session-found settings now s active none p e = cc
admit_session-found settings now s active (some c) none e = cc
admit_session-found settings now s active (some c) (some p) {r} {s'} e =
    elim (Bool-cases (is_live now active c p)) [
      | inl live ↦
          let same : some (active, record s { sessions = touch settings now active s.sessions })
              ≡ some (r, s') =
            (rw live at e) in
          (c, p, refl, refl, ap (λ (x : Session × Store). x.0) (some-injective _ _ same), live)
      | inr dead ↦
          let refused : ◌≡◌ {A = Option (Session × Store)} none (some (r, s')) = (rw dead at e) in
          cc
    ]

-- A session is let in only as it was stored under the digest, while it is not revoked and neither
-- its idle nor its absolute time has come, its user's password is the one that it was issued for, and
-- the profile is enabled.
pub authenticate_lem :
    (settings : Settings) (now : Instant) (digest : String) (s : Store) {r : Session} {s' : Store}
    → authenticate settings now digest s ≡ some (r, s')
    → (credential : Credential) × (profile : Profile) × (find
          (λ x. str_eq x.token_digest digest)
          s.sessions
        ≡ some r)
      × (credential_of r.user_id s ≡ some credential)
      × (profile_of r.user_id s ≡ some profile)
      × (is_some r.revoked_at ≡ false)
      × (now < r.idle_expires_at)
      × (now < r.absolute_expires_at)
      × (credential.version ≡ r.credential_version)
      × (profile.is_disabled ≡ false)
unfolding authenticate is_live
authenticate_lem settings now digest s {r} {s'} e =
    elim (Option-cases (find (λ x. str_eq x.token_digest digest) s.sessions)) [
      | inl missing ↦
          let refused : ◌≡◌ {A = Option (Session × Store)} none (some (r, s')) =
            (rw missing at e) in
          cc
      | inr (active, found) ↦
          let (c, p, known, enabled, same, live) =
            admit_session-found settings now s active (credential_of active.user_id s)
              (profile_of active.user_id s) {r = r} {s' = s'} (rw found at e) in
          let live' = subst (λ x. is_live now x c p ≡ true) same live in
          (
            c,
            p,
            found ∙ ap (λ x. some x) same,
            subst (λ (x : Session). credential_of x.user_id s ≡ some c) same known,
            subst (λ (x : Session). profile_of x.user_id s ≡ some p) same enabled,
            ground arith,
            ground arith,
            ground arith,
            ground arith,
            ground arith,
          )
    ]

-- All sessions of a user are revoked.
abbrev Revoked : ℕ → Session → Type 0
Revoked user r = r.user_id == user ≡ true → is_some r.revoked_at ≡ true

revoke_all-Revoked :
    (now : Instant) (user : ℕ) (rows : List Session) → All (Revoked user) (revoke_all now user rows)
revoke_all-Revoked now user [] = tt
revoke_all-Revoked now user (r ∷ rows) = (λ own. ground arith, revoke_all-Revoked now user rows)

abbrev replaced : Instant → ℕ → String → Store → Store
replaced now user hash s = record s {
  credentials =
      update_rows (λ c. c.user_id == user)
        (λ c. record c { password_hash = hash; version = c.version + 1 }) s.credentials;
  sessions = revoke_all now user s.sessions;
}

replace_password-Revoked :
    (now : Instant) (user session_id version : ℕ) (hash : String) (s : Store) {s' : Store}
    → replace_password now user session_id version hash s ≡ some s'
    → All (Revoked user) s'.sessions
unfolding replace_password
replace_password-Revoked now user session_id version hash s {s'} h =
    elim (Bool-cases (
      may_change now version (profile_of user s) (credential_of user s)
        (find (λ r. r.id == session_id) s.sessions))) [
          | inl may ↦
              let done : some (replaced now user hash s) ≡ some s' = (rw may at h) in
              subst (λ (x : Store). All (Revoked user) x.sessions) (some-injective _ _ done)
                (revoke_all-Revoked now user s.sessions)
          | inr not_allowed ↦
              let refused : ◌≡◌ {A = Option Store} none (some s') = (rw not_allowed at h) in cc
        ]

finish-Revoked :
    (user : ℕ) (s : Store) (o : Option Store) {s' : Store}
    → ((x : Store) → o ≡ some x → All (Revoked user) x.sessions)
    → ◌≡◌ {A = Changed} (finish s o) (s', none)
    → All (Revoked user) s'.sessions
finish-Revoked user s none {s'} h e =
    let refused : some invalid_session ≡ none = ap (λ (x : Changed). x.1) e in cc
finish-Revoked user s (some x) {s'} h e =
    subst (λ (y : Store). All (Revoked user) y.sessions) (ap (λ (z : Changed). z.0) e) (h x refl)

module _ (hasher : Hasher) (limits : String → List Limit) (now : Instant) where
  change_admitted-Revoked :
      (user session_id : ℕ) (current new : String) (c : Credential) (b : Bool × List Bucket)
      (s : Store) {s' : Store}
      → ◌≡◌ {A = Changed}
          (change_admitted hasher limits now user session_id current new c b s)
          (s', none)
      → All (Revoked user) s'.sessions
  change_admitted-Revoked user session_id current new c (true, rows) s {s'} e =
      let refused : some busy ≡ none = ap (λ (x : Changed). x.1) e in cc
  change_admitted-Revoked user session_id current new c (false, rows) s {s'} e =
      elim (Bool-cases (hasher.matches c.password_hash current)) [
        | inr wrong ↦
            let refused : some invalid_credentials ≡ none =
              ap (λ (x : Changed). x.1) (rw wrong at e) in
            cc
        | inl right ↦
            let t = record s { buckets = rows } in
            finish-Revoked user t
              (replace_password now user session_id c.version (hasher.hash new) t)
              (λ x. replace_password-Revoked now user session_id c.version (hasher.hash new) t)
              (rw right at e)
      ]

  change_password-Revoked :
      (user session_id : ℕ) (current new : String) (s : Store) {s' : Store}
      → ◌≡◌ {A = Changed}
          (change_password hasher limits now user session_id current new s)
          (s', none)
      → All (Revoked user) s'.sessions
  unfolding change_password
  change_password-Revoked user session_id current new s {s'} e =
      elim (Bool-cases (leb 15 (length_of new) && leb (length_of new) 128)) [
        | inr bad ↦
            let refused : some bad_password ≡ none = ap (λ (x : Changed). x.1) (rw bad at e) in cc
        | inl good ↦ elim (Option-cases (credential_of user s)) [
          | inl unknown ↦
              let refused : some invalid_credentials ≡ none =
                ap (λ (x : Changed). x.1) (rw (good, unknown) at e) in
              cc
          | inr (c, known) ↦
              change_admitted-Revoked user session_id current new c
                (throttle now (limits c.login) s.buckets) s (rw (good, known) at e)
        ]
      ]

  -- After a successful change of a user's password no session that was stored for the user is let in,
  -- whatever its digest and at any time.
  pub change_password_revokes :
      (user session_id : ℕ) (current new : String) (s : Store) {s' t : Store} (settings : Settings)
      (later : Instant) (digest : String) {r : Session}
      → ◌≡◌ {A = Changed}
          (change_password hasher limits now user session_id current new s)
          (s', none)
      → authenticate settings later digest s' ≡ some (r, t)
      → r.user_id == user ≡ false
  change_password_revokes user session_id current new s {s'} {t} settings later digest {r} changed
        admitted =
      let revoked = change_password-Revoked user session_id current new s changed in
      let (c, p, found, _, _, live, _, _, _, _) =
        authenticate_lem settings later digest s' admitted in
      let own =
        find-All (Revoked user) (λ x. str_eq x.token_digest digest) s'.sessions revoked found in
      ground arith

logout-Revoked :
    (now : Instant) (session_id user : ℕ) (rows : List Session)
    → All
        (λ r. r.id == session_id && r.user_id == user ≡ true → is_some r.revoked_at ≡ true)
        (update_rows
          (λ r. r.id == session_id && r.user_id == user)
          (λ r. record r { revoked_at = some now })
          rows)
logout-Revoked now session_id user [] = tt
logout-Revoked now session_id user (r ∷ rows) =
    (λ own. ground arith, logout-Revoked now session_id user rows)

-- After a sign-out the session is not let in again, at any time.
pub logout_revokes :
    (now : Instant) (session_id user : ℕ) (s : Store) {t : Store} (settings : Settings)
    (later : Instant) (digest : String) {r : Session}
    → authenticate settings later digest (logout now session_id user s) ≡ some (r, t)
    → r.id == session_id && r.user_id == user ≡ false
unfolding logout
logout_revokes now session_id user s {t} settings later digest {r} admitted =
    let s' = logout now session_id user s in
    let (c, p, found, _, _, live, _, _, _, _) =
      authenticate_lem settings later digest s' admitted in
    let own =
      find-All (λ x. x.id == session_id && x.user_id == user ≡ true → is_some x.revoked_at ≡ true)
        (λ x. str_eq x.token_digest digest) s'.sessions
        (logout-Revoked now session_id user s.sessions) found in
    ground arith
