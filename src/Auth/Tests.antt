-- ===== src/Auth/Tests.antt =====
-- Sample users, their sessions and a change of password.
use Prim.Native.String.{String}
use text.Mathlib.Text.{◌==◌ as str_eq}
use market_intelligence_lab.Prelude.{
  ◌+◌, ◌≤◌, length, true, arith, All, ◌<◌, ◌≡◌, refl, false, none, some, List, [], ◌∷◌, ◌==◌,
  is_some, find,
}
use market_intelligence_lab.Auth.Throttle.{Bucket, Limit, throttle}
use market_intelligence_lab.Auth.Throttle.Counts.{uses}
use market_intelligence_lab.Auth.Throttle.Laws.{IsWithin, throttle_lem}
use market_intelligence_lab.Auth.Sessions.{
  Profile, Credential, Session, Store, Settings, profile_of, credential_of, is_live, authenticate,
  Hasher, replace_password, change_password,
}
use market_intelligence_lab.Auth.Login.{new_session, issue, login_of, sessions_of, login}
use market_intelligence_lab.Auth.Login.Laws.{login_bounded}
use market_intelligence_lab.Auth.Login.Entry.{login_then_authenticate}
use market_intelligence_lab.Auth.Sessions.Laws.{authenticate_lem, change_password_revokes}

abbrev hasher : Hasher
hasher = record { matches = λ hash password. str_eq hash password; hash = λ password. password }

abbrev limits : String → List Limit
limits login = ("global", 60) ∷ ("account:1", 5) ∷ ("source:2", 9) ∷ []

abbrev settings : Settings
settings = record { auth_idle_seconds = 600; auth_touch_seconds = 60; auth_absolute_seconds = 9000 }

abbrev ada_session : Session
ada_session = record {
  id = 10;
  token_digest = "a";
  user_id = 1;
  credential_version = 1;
  issued_at = 40;
  last_seen_at = 40;
  idle_expires_at = 900;
  absolute_expires_at = 9000;
  revoked_at = none;
}

abbrev bob_session : Session
bob_session = record ada_session { id = 20; token_digest = "b"; user_id = 2 }

abbrev ada : Profile
ada = record { id = 1; is_disabled = false }

abbrev bob : Profile
bob = record { id = 2; is_disabled = false }

abbrev ada_password : Credential
ada_password = record {
  user_id = 1;
  login = "ada";
  password_hash = "old password 0000";
  version = 1;
}

abbrev bob_password : Credential
bob_password = record {
  user_id = 2;
  login = "bob";
  password_hash = "bob password 0000";
  version = 1;
}

abbrev store : Store
store = record {
  profiles = ada ∷ bob ∷ [];
  credentials = ada_password ∷ bob_password ∷ [];
  sessions = ada_session ∷ bob_session ∷ [];
  buckets = [];
}

authenticate_lem_example :
    (credential : Credential) × (profile : Profile) × (find
        (λ x. str_eq x.token_digest "a")
        store.sessions
      ≡ some ada_session)
    × (credential_of 1 store ≡ some credential)
    × (profile_of 1 store ≡ some profile)
    × (is_some ada_session.revoked_at ≡ false)
    × (50 < 900)
    × (50 < 9000)
    × (credential.version ≡ 1)
    × (profile.is_disabled ≡ false)
unfolding authenticate is_live
authenticate_lem_example =
    authenticate_lem settings 50 "a" store {r = ada_session} {s' = store} refl

-- Bob stays signed in.
change_password_revokes_example : 2 == 1 ≡ false
unfolding change_password replace_password throttle authenticate is_live
change_password_revokes_example =
    change_password_revokes hasher limits 50 1 10 "old password 0000" "new password 0000" store
      {s' = (change_password hasher limits 50 1 10 "old password 0000" "new password 0000" store).0}
      settings 70 "b" {r = bob_session} refl refl

-- The account's window has run out, the global one has not.
abbrev buckets : List Bucket
buckets =
    record { key = "global"; attempts = 59; expires_at = 60 }
    ∷ record { key = "account:1"; attempts = 5; expires_at = 50 }
    ∷ []

throttle_lem_example :
    let (busy, rows) = throttle 55 (limits "ada") buckets in
    (busy ≡ false
      → All (λ l. IsWithin rows l × (uses l.0 55 buckets + 1 ≤ uses l.0 55 rows)) (limits "ada"))
    × (busy ≡ true → (key : String) → uses key 55 rows ≡ uses key 55 buckets)
    × (All (λ l. uses l.0 55 buckets < l.1) (limits "ada") → busy ≡ false)
throttle_lem_example = throttle_lem 55 (limits "ada") buckets

abbrev signed_in : Store
signed_in = (login hasher limits settings 50 30 "t" "ada" "old password 0000" store).0

ada_signs_in :
    login hasher limits settings 50 30 "t" "ada" "old password 0000" store ≡ (signed_in, none)
unfolding login issue throttle
ada_signs_in = refl

-- Ada has two sessions then.
ada_sessions : length (sessions_of 1 signed_in.sessions) ≡ 2
unfolding login issue throttle
ada_sessions = refl

login_bounded_example :
    (c : Credential) × (login_of "ada" store.credentials ≡ some c)
    × (str_eq c.password_hash "old password 0000" ≡ true)
    × (length (sessions_of c.user_id signed_in.sessions) ≤ 10)
login_bounded_example =
    login_bounded hasher limits settings 50 30 "t" "ada" "old password 0000" store signed_in
      ada_signs_in

login_then_authenticate_example :
    (c : Credential) × (s : Store) × (authenticate settings 80 "t" signed_in
      ≡ some (new_session settings 50 30 "t" c.user_id c.version, s))
login_then_authenticate_example =
    login_then_authenticate hasher limits settings 50 80 30 "t" "ada" "old password 0000" store
      signed_in refl ada_signs_in (omega arith) (omega arith)
