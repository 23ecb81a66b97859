-- ===== src/Auth/Sessions.antt =====
-- Sessions and passwords (packages/auth/native.py: `authenticate`, `logout`, `change_password`). The
-- password hash is third-party code and a parameter; audit events are not modelled.
pub mod Laws
use Prim.Native.String.{String}
use text.Mathlib.Text.{◌==◌ as str_eq}
use market_intelligence_lab.Prelude.{
  ℕ, ◌+◌, ◌-◌, Bool, true, false, ◌&&◌, ◌||◌, not, Option, none, some, List, leb, ltb, ◌==◌, find,
  update_rows, if◌then◌else◌, min, is_some,
}
use market_intelligence_lab.Moments.{Instant, seconds}
use market_intelligence_lab.Auth.Throttle.{Bucket, Limit, throttle}

pub record Profile : Type 0 where
  pub id : ℕ
  pub is_disabled : Bool

pub record Credential : Type 0 where
  pub user_id : ℕ
  pub login : String
  pub password_hash : String
  pub version : ℕ

pub record Session : Type 0 where
  pub id : ℕ
  pub token_digest : String
  pub user_id : ℕ
  pub credential_version : ℕ
  pub issued_at : Instant
  pub last_seen_at : Instant
  pub idle_expires_at : Instant
  pub absolute_expires_at : Instant
  pub revoked_at : Option Instant

pub record Store : Type 0 where
  pub profiles : List Profile
  pub credentials : List Credential
  pub sessions : List Session
  pub buckets : List Bucket

pub record Settings : Type 0 where
  pub auth_idle_seconds : ℕ
  pub auth_touch_seconds : ℕ
  pub auth_absolute_seconds : ℕ

abbrev pub profile_of : ℕ → Store → Option Profile
profile_of user s = find (λ p. p.id == user) s.profiles

abbrev pub credential_of : ℕ → Store → Option Credential
credential_of user s = find (λ c. c.user_id == user) s.credentials

-- The five reasons to refuse a session that was found.
unfoldable pub is_live : Instant → Session → Credential → Profile → Bool
is_live now active credential profile = not (
    is_some active.revoked_at
    || leb active.idle_expires_at now
    || leb active.absolute_expires_at now
    || not (credential.version == active.credential_version)
    || profile.is_disabled)

-- The update of `last_seen_at`, where it is due.
abbrev pub touch : Settings → Instant → Session → List Session → List Session
touch settings now active rows =
    if leb (active.last_seen_at + seconds settings.auth_touch_seconds) now
    then update_rows
        (λ r.
          r.id == active.id
          && r.last_seen_at == active.last_seen_at
          && not (is_some r.revoked_at)
          && ltb now r.idle_expires_at)
        (λ r. record r {
          last_seen_at = now;
          idle_expires_at =
              min (now + seconds settings.auth_idle_seconds) active.absolute_expires_at;
        })
        rows
    else rows

-- The session and the store, or `none` for the AuthError.
abbrev pub admit_session :
    Settings
    → Instant
    → Store
    → Session
    → Option Credential
    → Option Profile
    → Option (Session × Store)
admit_session settings now s active none profile = none
admit_session settings now s active (some credential) none = none
admit_session settings now s active (some credential) (some profile) =
    if is_live now active credential profile
    then some (active, record s { sessions = touch settings now active s.sessions })
    else none

abbrev pub admit_found : Settings → Instant → Store → Option Session → Option (Session × Store)
admit_found settings now s none = none
admit_found settings now s (some active) =
    admit_session settings now s active (credential_of active.user_id s)
      (profile_of active.user_id s)

-- From the digest of a well-formed bearer token on.
unfoldable pub authenticate : Settings → Instant → String → Store → Option (Session × Store)
unfolding is_live
authenticate settings now digest s =
    admit_found settings now s (find (λ r. str_eq r.token_digest digest) s.sessions)

-- The principal's session is revoked, if it is the user's.
unfoldable pub logout : Instant → ℕ → ℕ → Store → Store
logout now session_id user s = record s {
  sessions =
      update_rows (λ r. r.id == session_id && r.user_id == user)
        (λ r. record r { revoked_at = some now }) s.sessions;
}

abbrev pub revoke_all : Instant → ℕ → List Session → List Session
revoke_all now user rows =
    update_rows (λ r. r.user_id == user && not (is_some r.revoked_at))
      (λ r. record r { revoked_at = some now }) rows

pub data Refusal : Type 0 where
  bad_password busy invalid_credentials invalid_session : Refusal

-- The condition of the last transaction of `change_password`; here an absent row refuses.
abbrev pub may_change : Instant → ℕ → Option Profile → Option Credential → Option Session → Bool
may_change now version (some profile) (some credential) (some active) = not (
    profile.is_disabled
    || not (credential.version == version)
    || is_some active.revoked_at
    || not (active.credential_version == version)
    || leb active.idle_expires_at now
    || leb active.absolute_expires_at now)
may_change now version profile credential active = false

-- The last transaction: `version` was read before the password was checked.
unfoldable pub replace_password : Instant → ℕ → ℕ → ℕ → String → Store → Option Store
replace_password now user session_id version replacement s =
    if may_change now version (profile_of user s) (credential_of user s)
      (find (λ r. r.id == session_id) s.sessions)
    then some (record s {
      credentials =
          update_rows (λ c. c.user_id == user)
            (λ c. record c { password_hash = replacement; version = c.version + 1 }) s.credentials;
      sessions = revoke_all now user s.sessions;
    })
    else none

-- `len(text)`
abbrev pub length_of : String → ℕ
length_of String.[] = 0
length_of (String.◌∷◌ c s) = length_of s + 1

abbrev pub Changed : Type 0
Changed = Store × Option Refusal

abbrev pub finish : Store → Option Store → Changed
finish s none = (s, some invalid_session)
finish s (some s') = (s', none)

-- Argon2: whether a hash is the password's, and a new hash.
pub record Hasher : Type 0 where
  pub matches : String → String → Bool
  pub hash : String → String

module _ (hasher : Hasher) (limits : String → List Limit) (now : Instant) where
  abbrev change_admitted :
      ℕ → ℕ → String → String → Credential → Bool × List Bucket → Store → Changed
  change_admitted user session_id current new credential (limited, rows) s =
      let s' = record s { buckets = rows } in
      if limited
      then (s', some busy)
      else if hasher.matches credential.password_hash current
      then finish s' (replace_password now user session_id credential.version (hasher.hash new) s')
      else (s', some invalid_credentials)

  abbrev change_known : ℕ → ℕ → String → String → Option Credential → Store → Changed
  change_known user session_id current new none s = (s, some invalid_credentials)
  change_known user session_id current new (some credential) s =
      change_admitted user session_id current new credential
        (throttle now (limits credential.login) s.buckets) s

  -- The whole call, with no other call in between; the limits are those of the login's buckets.
  unfoldable pub change_password : ℕ → ℕ → String → String → Store → Changed
  unfolding replace_password
  change_password user session_id current new s =
      if leb 15 (length_of new) && leb (length_of new) 128
      then change_known user session_id current new (credential_of user s) s
      else (s, some bad_password)
