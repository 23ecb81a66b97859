-- ===== src/Auth/Login/Entry.antt =====
-- A sign-in and the use of its session (packages/auth/native.py, `login` and `authenticate`).
use Prim.Native.String.{String}
use text.Mathlib.Text.{◌==◌ as str_eq}
use market_intelligence_lab.Prelude.{
  ℕ, ◌+◌, ◌<◌, ◌≡◌, ◌∙◌, sym, ap, refl, inl, inr, Bool, true, false, Option, none, some, List, [],
  ◌∷◌, ◌++◌, ◌==◌, find, exists_row, where_rows, Bool-cases, arith,
}
use mathlib.Core.Path.{subst}
use text.Mathlib.TextPositions.{eq_refl}
use market_intelligence_lab.Moments.{Instant, seconds}
use market_intelligence_lab.Auth.Throttle.{Limit, throttle}
use market_intelligence_lab.Auth.Sessions.{
  Session, Settings, Store, Credential, Profile, Hasher, profile_of, credential_of, is_live, touch,
  admit_session, admit_found, authenticate,
}
use market_intelligence_lab.Auth.Login.{
  new_session, issue, unexpired, surplus, without, may_sign_in, login,
}
use market_intelligence_lab.Auth.Login.Laws.{login-eq-none}

may_sign_in-eq-true :
    (version : ℕ) (profile : Option Profile) (current : Option Credential)
    → may_sign_in version profile current ≡ true
    → (p : Profile) × (c : Credential) × (profile ≡ some p)
      × (current ≡ some c)
      × (p.is_disabled ≡ false)
      × ((c.version == version) ≡ true)
may_sign_in-eq-true version none current h = cc
may_sign_in-eq-true version (some p) none h = cc
may_sign_in-eq-true version (some p) (some c) h = (p, c, refl, refl, ground arith, ground arith)

exists_row-where_rows :
    (p q : Session → Bool) (rows : List Session)
    → exists_row p rows ≡ false
    → exists_row p (where_rows q rows) ≡ false
exists_row-where_rows p q [] h = refl
exists_row-where_rows p q (r ∷ rows) h =
    let here : p r ≡ false = ground arith in
    let later : exists_row p rows ≡ false = ground arith in
    let rest = exists_row-where_rows p q rows later in
    elim (Bool-cases (q r)) [ inl e ↦ rw e (rw here rest) | inr e ↦ rw e rest ]

find-append :
    (p : Session → Bool) (rows : List Session) (new : Session)
    → exists_row p rows ≡ false
    → p new ≡ true
    → find p (rows ++ (new ∷ [])) ≡ some new
find-append p [] new h k = rw k refl
find-append p (r ∷ rows) new h k =
    let here : p r ≡ false = ground arith in
    let later : exists_row p rows ≡ false = ground arith in rw here (find-append p rows new later k)

-- A session that is live is let in by its digest.
authenticate-found :
    (settings : Settings) (later : Instant) (digest : String) (s : Store) (active : Session)
    (c : Credential) (p : Profile)
    → find (λ r. str_eq r.token_digest digest) s.sessions ≡ some active
    → credential_of active.user_id s ≡ some c
    → profile_of active.user_id s ≡ some p
    → is_live later active c p ≡ true
    → (s' : Store) × (authenticate settings later digest s ≡ some (active, s'))
unfolding authenticate
authenticate-found settings later digest s active c p found known enabled live = (
  record s { sessions = touch settings later active s.sessions },
  ap (admit_found settings later s) found
      ∙ ap (λ x. admit_session settings later s active x (profile_of active.user_id s)) known
      ∙ ap (λ x. admit_session settings later s active (some c) x) enabled
      ∙ rw live refl,
)

issue-find :
    (now : Instant) (new : Session) (rows : List Session) (p : Session → Bool)
    → exists_row p rows ≡ false
    → p new ≡ true
    → find p (issue now new rows) ≡ some new
unfolding issue
issue-find now new rows p h k =
    let live = unexpired now rows in
    find-append p (without (surplus new.user_id live) live) new
      (exists_row-where_rows p _ live (exists_row-where_rows p _ rows h)) k

new_session-is_live :
    (settings : Settings) (now later : Instant) (id : ℕ) (digest : String) (user : ℕ)
    (current : Credential) (p : Profile) (version : ℕ)
    → later < now + seconds settings.auth_idle_seconds
    → later < now + seconds settings.auth_absolute_seconds
    → (current.version == version) ≡ true
    → p.is_disabled ≡ false
    → is_live later (new_session settings now id digest user version) current p ≡ true
unfolding is_live
new_session-is_live settings now later id digest user current p version idle absolute same enabled =
    ground arith

-- The token of a sign-in that succeeds, when no stored session has its digest, lets its holder in
-- as the new session until the idle time or the absolute time has come.
pub login_then_authenticate :
    (hasher : Hasher) (limits : String → List Limit) (settings : Settings) (now later : Instant)
    (id : ℕ) (digest identifier password : String) (s s' : Store)
    → exists_row (λ r. str_eq r.token_digest digest) s.sessions ≡ false
    → login hasher limits settings now id digest identifier password s ≡ (s', none)
    → later < now + seconds settings.auth_idle_seconds
    → later < now + seconds settings.auth_absolute_seconds
    → (c : Credential) × (s'' : Store) × (authenticate settings later digest s'
        ≡ some (new_session settings now id digest c.user_id c.version, s''))
login_then_authenticate hasher limits settings now later id digest identifier password s s' fresh h
      idle absolute =
    let (c, found, matched, allowed, after) =
      login-eq-none hasher limits settings now id digest identifier password s s' h in
    let (p, current, enabled, known, active, same) =
      may_sign_in-eq-true c.version (profile_of c.user_id s) (credential_of c.user_id s) allowed in
    let new = new_session settings now id digest c.user_id c.version in
    let there : Store = record s {
      buckets = (throttle now (limits identifier) s.buckets).1;
      sessions = issue now new s.sessions;
    } in
    let stored =
      issue-find now new s.sessions (λ r. str_eq r.token_digest digest) fresh (eq_refl digest) in
    let live =
      new_session-is_live settings now later id digest c.user_id current p c.version idle absolute
        same active in
    let entered =
      authenticate-found settings later digest there new current p stored known enabled live in
    (
      c,
      entered.0,
      subst (λ t. authenticate settings later digest t ≡ some (new, entered.0)) (sym after)
          entered.1,
    )
