-- ===== src/Auth/Login.antt =====
-- `login` of src/server/handlers/auth.rs, in the order of its calls.
use toki_sync.Prelude.{
  ℕ, ◌≡◌, refl, ap, Bool, true, false, not, Option, none, some, List, Str, is_empty, Result, ok,
  err, if◌then◌else◌, arith, Bool-cases, inl, inr,
}
use toki_sync.Db.Tokens.{RefreshToken, TokenError, store_refresh_token}
use toki_sync.Limits.BruteForce.{check, record_failure, record_success}
use toki_sync.Auth.Jwt.{Claims, issue_access_token, issue_refresh_token}
use toki_sync.Auth.State.{
  User, AppError, internal, unauthorized, locked_out, TokenResponse, AppState, Readings,
  get_user_by_username,
}

pub record LoginRequest : Type 0 where
  pub username : Str
  pub password : Str
  pub device_id : Option Str

-- What the clock and the random generator give to one request.
pub record Draw : Type 0 where
  pub readings : Readings
  pub access_uuid : Str
  pub refresh_uuid : Str

abbrev pub Outcome : Type 0
Outcome = AppState × Result TokenResponse AppError

-- `state.brute.check`, with the table that its sweep leaves.
abbrev pub guarded : AppState → Str → Str → Readings → AppState × Result (Unit {0}) ℕ
guarded s ip name r =
    let c = check s.brute ip name r.asked r.swept r.stamped r.checked in
    (record s { brute = c.0 }, c.1)

abbrev pub note_failure : AppState → Str → Str → Readings → AppState
note_failure s ip name r = record s {
  brute = (record_failure s.brute ip name r.failed r.failed_swept).0;
}

abbrev pub note_success : AppState → Str → Str → AppState
note_success s ip name = record s { brute = record_success s.brute ip name }

abbrev pub response : AppState → Str → Str → TokenResponse
response s access refresh = record {
  access_token = access;
  refresh_token = refresh;
  token_type = "Bearer";
  expires_in = s.access_token_ttl_secs;
}

abbrev pub store_new : AppState → Str → Str → Result (List RefreshToken) TokenError → Outcome
store_new s access refresh (ok tokens) =
    (record s { tokens = tokens }, ok (response s access refresh))
store_new s access refresh (err e) = (s, err internal)

-- The tokens, once both are signed.
abbrev pub issue_tokens : AppState → ℕ → Option Str → Option (Str × Claims) → Outcome
issue_tokens s now none refresh = (s, err internal)
issue_tokens s now (some access) none = (s, err internal)
issue_tokens s now (some access) (some (refresh, c)) =
    store_new s access refresh (store_refresh_token s.tokens c.jti c.sub c.did c.exp now)

-- The answer of bcrypt decides.
abbrev pub with_answer : AppState → Str → LoginRequest → Draw → User → Option Bool → Outcome
with_answer s ip body d u none = (s, err internal)
with_answer s ip body d u (some false) =
    (note_failure s ip body.username d.readings, err (unauthorized "invalid credentials"))
with_answer s ip body d u (some true) =
    issue_tokens (note_success s ip body.username) d.readings.now
      (issue_access_token s.jwt u.id d.readings.now d.access_uuid)
      (issue_refresh_token s.jwt u.id body.device_id d.readings.now d.refresh_uuid)

abbrev pub with_user : AppState → Str → LoginRequest → Draw → Option User → Outcome
with_user s ip body d none =
    (note_failure s ip body.username d.readings, err (unauthorized "invalid credentials"))
with_user s ip body d (some u) =
    if not u.active
    then (s, err (unauthorized "account deactivated"))
    else if is_empty u.password_hash
    then (s, err (unauthorized "this account uses OIDC login"))
    else with_answer s ip body d u (s.bcrypt_verify body.password u.password_hash)

abbrev pub with_verdict : AppState → Str → LoginRequest → Draw → Result (Unit {0}) ℕ → Outcome
with_verdict s ip body d (err secs) = (s, err (locked_out secs))
with_verdict s ip body d (ok _) = with_user s ip body d (get_user_by_username s.users body.username)

unfoldable pub login : AppState → Str → LoginRequest → Draw → Outcome
login s ip body d = let g = guarded s ip body.username d.readings in with_verdict g.0 ip body d g.1

-- What a login that goes through has checked, and what it stored.
pub record LoggedIn (s : AppState) (body : LoginRequest) (d : Draw) (s' : AppState)
    (resp : TokenResponse) : Type 0 where
  pub user : User
  pub found : get_user_by_username s.users body.username ≡ some user
  pub active : user.active ≡ true
  pub has_password : is_empty user.password_hash ≡ false
  pub verified : s.bcrypt_verify body.password user.password_hash ≡ some true
  pub access_issued :
      issue_access_token s.jwt user.id d.readings.now d.access_uuid ≡ some resp.access_token
  pub claims : Claims
  pub refresh_issued :
      issue_refresh_token s.jwt user.id body.device_id d.readings.now d.refresh_uuid
      ≡ some (resp.refresh_token, claims)
  pub stored :
      store_refresh_token s.tokens claims.jti claims.sub claims.did claims.exp d.readings.now
      ≡ ok s'.tokens

store_inv :
    (s s' : AppState) (access refresh : Str) (r : Result (List RefreshToken) TokenError)
    (resp : TokenResponse)
    → store_new s access refresh r ≡ (s', ok resp)
    → (access ≡ resp.access_token) × (refresh ≡ resp.refresh_token) × (r ≡ ok s'.tokens)
store_inv s s' access refresh (ok tokens) resp h = (ground arith, ground arith, ground arith)
store_inv s s' access refresh (err e) resp h = absurd (ground arith)

issue_inv :
    (s s' : AppState) (now : ℕ) (a : Option Str) (r : Option (Str × Claims)) (resp : TokenResponse)
    → issue_tokens s now a r ≡ (s', ok resp)
    → (c : Claims) × (a ≡ some resp.access_token)
      × (r ≡ some (resp.refresh_token, c))
      × (store_refresh_token s.tokens c.jti c.sub c.did c.exp now ≡ ok s'.tokens)
issue_inv s s' now none r resp h = absurd (ground arith)
issue_inv s s' now (some a) none resp h = absurd (ground arith)
issue_inv s s' now (some a) (some (b, c)) resp h =
    let i = store_inv s s' a b (store_refresh_token s.tokens c.jti c.sub c.did c.exp now) resp h in
    (c, ap some i.0, ap (λ x. some (x, c)) i.1, i.2)

module _ (s s' : AppState) (ip : Str) (body : LoginRequest) (d : Draw) (resp : TokenResponse) where
  answer_sound :
      (u : User) (a : Option Bool)
      → with_answer s ip body d u a ≡ (s', ok resp)
      → s.bcrypt_verify body.password u.password_hash ≡ a
      → get_user_by_username s.users body.username ≡ some u
      → u.active ≡ true
      → is_empty u.password_hash ≡ false
      → LoggedIn s body d s' resp
  answer_sound u none h e f k n = absurd (ground arith)
  answer_sound u (some false) h e f k n = absurd (ground arith)
  answer_sound u (some true) h e f k n =
      let i =
        issue_inv (note_success s ip body.username) s' d.readings.now
          (issue_access_token s.jwt u.id d.readings.now d.access_uuid)
          (issue_refresh_token s.jwt u.id body.device_id d.readings.now d.refresh_uuid) resp h in
      record {
        user = u;
        found = f;
        active = k;
        has_password = n;
        verified = e;
        access_issued = i.1;
        claims = i.0;
        refresh_issued = i.2;
        stored = i.3;
      }

  user_sound :
      (o : Option User)
      → with_user s ip body d o ≡ (s', ok resp)
      → get_user_by_username s.users body.username ≡ o
      → LoggedIn s body d s' resp
  user_sound none h f = absurd (ground arith)
  user_sound (some u) h f = elim (Bool-cases u.active) [
    | inr k ↦ absurd (ground arith)
    | inl k ↦ elim (Bool-cases (is_empty u.password_hash)) [
      | inl n ↦ absurd (ground arith)
      | inr n ↦
          answer_sound u (s.bcrypt_verify body.password u.password_hash) (rw (k, n) at h) refl f k n
    ]
  ]

  verdict_sound :
      (v : Result (Unit {0}) ℕ)
      → with_verdict s ip body d v ≡ (s', ok resp)
      → LoggedIn s body d s' resp
  verdict_sound (err secs) h = absurd (ground arith)
  verdict_sound (ok _) h = user_sound (get_user_by_username s.users body.username) h refl

-- A login that goes through found the user, active and with a password, checked the password by bcrypt,
-- signed both tokens for that user and stored the id of the refresh token.
pub login-LoggedIn :
    (s s' : AppState) (ip : Str) (body : LoginRequest) (d : Draw) (resp : TokenResponse)
    → login s ip body d ≡ (s', ok resp)
    → LoggedIn s body d s' resp
unfolding login
login-LoggedIn s s' ip body d resp h =
    let g = guarded s ip body.username d.readings in
    let l = verdict_sound g.0 s' ip body d resp g.1 h in
    record {
      user = l.user;
      found = l.found;
      active = l.active;
      has_password = l.has_password;
      verified = l.verified;
      access_issued = l.access_issued;
      claims = l.claims;
      refresh_issued = l.refresh_issued;
      stored = l.stored;
    }

-- While the guard refuses an address and a name, a login with them is answered with the seconds that
-- remain, whatever the password, and changes nothing but what the guard sweeps.
pub login_locked :
    (s : AppState) (ip : Str) (body : LoginRequest) (d : Draw) (secs : ℕ)
    → (guarded s ip body.username d.readings).1 ≡ err secs
    → login s ip body d ≡ ((guarded s ip body.username d.readings).0, err (locked_out secs))
unfolding login
login_locked s ip body d secs h = rw h

store_refused :
    (s s' : AppState) (access refresh : Str) (r : Result (List RefreshToken) TokenError)
    (e : AppError)
    → store_new s access refresh r ≡ (s', err e)
    → s'.tokens ≡ s.tokens
store_refused s s' access refresh (ok tokens) e h = absurd (ground arith)
store_refused s s' access refresh (err x) e h = ground arith

issue_refused :
    (s s' : AppState) (now : ℕ) (a : Option Str) (r : Option (Str × Claims)) (e : AppError)
    → issue_tokens s now a r ≡ (s', err e)
    → s'.tokens ≡ s.tokens
issue_refused s s' now none r e h = ground arith
issue_refused s s' now (some a) none e h = ground arith
issue_refused s s' now (some a) (some (b, c)) e h =
    store_refused s s' a b (store_refresh_token s.tokens c.jti c.sub c.did c.exp now) e h

module _ (s s' : AppState) (ip : Str) (body : LoginRequest) (d : Draw) (e : AppError) where
  answer_refused :
      (u : User) (a : Option Bool)
      → with_answer s ip body d u a ≡ (s', err e)
      → s'.tokens ≡ s.tokens
  answer_refused u none h = ground arith
  answer_refused u (some false) h = ground arith
  answer_refused u (some true) h =
      issue_refused (note_success s ip body.username) s' d.readings.now
        (issue_access_token s.jwt u.id d.readings.now d.access_uuid)
        (issue_refresh_token s.jwt u.id body.device_id d.readings.now d.refresh_uuid) e h

  user_refused : (o : Option User) → with_user s ip body d o ≡ (s', err e) → s'.tokens ≡ s.tokens
  user_refused none h = ground arith
  user_refused (some u) h = elim (Bool-cases u.active) [
    | inr k ↦ ground arith
    | inl k ↦ elim (Bool-cases (is_empty u.password_hash)) [
      | inl n ↦ ground arith
      | inr n ↦ answer_refused u (s.bcrypt_verify body.password u.password_hash) (rw (k, n) at h)
    ]
  ]

  verdict_refused :
      (v : Result (Unit {0}) ℕ) → with_verdict s ip body d v ≡ (s', err e) → s'.tokens ≡ s.tokens
  verdict_refused (err secs) h = ground arith
  verdict_refused (ok _) h = user_refused (get_user_by_username s.users body.username) h

-- A login that fails, for whatever reason, stores no refresh token.
pub login_refused :
    (s s' : AppState) (ip : Str) (body : LoginRequest) (d : Draw) (e : AppError)
    → login s ip body d ≡ (s', err e)
    → s'.tokens ≡ s.tokens
unfolding login
login_refused s s' ip body d e h =
    let g = guarded s ip body.username d.readings in verdict_refused g.0 s' ip body d e g.1 h
