-- ===== src/Auth/Login.antt =====
-- The issue of sessions (packages/auth/native.py, `login`). The identifier is a normalized one; the
-- token's digest and the row's identifier are new and are arguments. Audit events are not modelled.
pub mod Laws
pub mod Entry
use Prim.Native.String.{String}
use text.Mathlib.Text.{◌==◌ as str_eq}
use market_intelligence_lab.Prelude.{
  ℕ, ◌+◌, Bool, true, false, ◌&&◌, not, Option, none, some, List, [], ◌∷◌, ◌++◌, leb, ltb, ◌==◌,
  find, exists_row, where_rows, sort_rows, drop, if◌then◌else◌,
}
use market_intelligence_lab.Moments.{Instant, seconds}
use market_intelligence_lab.Auth.Throttle.{Bucket, Limit, throttle}
use market_intelligence_lab.Auth.Sessions.{
  Profile, Credential, Session, Settings, Store, profile_of, credential_of, Hasher, Refusal, busy,
  invalid_credentials,
}

abbrev pub newest_first : Session → Session → Bool
newest_first a b = leb b.issued_at a.issued_at

abbrev pub sessions_of : ℕ → List Session → List Session
sessions_of user rows = where_rows (λ r. r.user_id == user) rows

-- `existing[9:]`
abbrev pub surplus : ℕ → List Session → List Session
surplus user rows = drop 9 (sort_rows newest_first (sessions_of user rows))

abbrev pub without : List Session → List Session → List Session
without gone rows = where_rows (λ r. not (exists_row (λ g. g.id == r.id) gone)) rows

abbrev pub new_session : Settings → Instant → ℕ → String → ℕ → ℕ → Session
new_session settings now id digest user version = record {
  id = id;
  token_digest = digest;
  user_id = user;
  credential_version = version;
  issued_at = now;
  last_seen_at = now;
  idle_expires_at = now + seconds settings.auth_idle_seconds;
  absolute_expires_at = now + seconds settings.auth_absolute_seconds;
  revoked_at = none;
}

abbrev pub unexpired : Instant → List Session → List Session
unexpired now rows = where_rows (λ r. not (leb r.absolute_expires_at now)) rows

unfoldable pub issue : Instant → Session → List Session → List Session
issue now new rows =
    let live = unexpired now rows in without (surplus new.user_id live) live ++ (new ∷ [])

-- `version` was read before the password was checked.
abbrev pub may_sign_in : ℕ → Option Profile → Option Credential → Bool
may_sign_in version (some profile) (some current) =
    not profile.is_disabled && current.version == version
may_sign_in version profile current = false

abbrev pub login_of : String → List Credential → Option Credential
login_of identifier rows = find (λ c. str_eq c.login identifier) rows

module _ (hasher : Hasher) (limits : String → List Limit) (settings : Settings)
    (now : Instant) where
  abbrev pub sign_in : ℕ → String → String → Option Credential → Store → Store × Option Refusal
  sign_in id digest password none s = (s, some invalid_credentials)
  sign_in id digest password (some c) s =
      if hasher.matches c.password_hash password
        && may_sign_in c.version (profile_of c.user_id s) (credential_of c.user_id s)
      then (
        record s {
          sessions = issue now (new_session settings now id digest c.user_id c.version) s.sessions;
        },
        none,
      )
      else (s, some invalid_credentials)

  abbrev pub admit_login :
      ℕ → String → String → String → Bool × List Bucket → Store → Store × Option Refusal
  admit_login id digest identifier password (limited, rows) s =
      let s' = record s { buckets = rows } in
      if limited
      then (s', some busy)
      else sign_in id digest password (login_of identifier s'.credentials) s'

  -- The whole call, with no other call in between.
  unfoldable pub login : ℕ → String → String → String → Store → Store × Option Refusal
  unfolding issue
  login id digest identifier password s =
      admit_login id digest identifier password (throttle now (limits identifier) s.buckets) s
