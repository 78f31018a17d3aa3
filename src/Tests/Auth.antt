-- ===== src/Tests/Auth.antt =====
-- Signing in at a concrete state.
use toki_sync.Prelude.{
  ℕ, ◌≡◌, ◌≢◌, refl, true, Option, none, some, [], ◌∷◌, ◌++◌, Str, lit, str_eq, get, remove, ok,
  arith,
}
use toki_sync.Db.Tokens.{
  RefreshToken, new_token, rotate_refresh_token, is_refresh_token_revoked, revoke_refresh_token,
  store_refresh_token, cleanup_expired_tokens,
}
use toki_sync.Db.Tokens
use toki_sync.Db.Tokens.Rotation.{done}
use toki_sync.Limits.BruteForce.{
  BruteForceGuard, new, key, check, record_success, sweep_if_due, verdict_at, lock_verdict,
}
use toki_sync.Auth.Jwt.{
  JwtManager, Claims, refresh_claims, access_claims, issue_access_token, issue_refresh_token,
  iss_claim, verify_refresh, has_type, rotate,
}
use toki_sync.Auth.State.{User, TokenResponse, AppState, get_user_by_username}
use toki_sync.Auth.Login.{LoginRequest, Draw, login, LoggedIn, login-LoggedIn}
use toki_sync.Auth.Refresh.{RefreshRequest, token_refresh, replay_refused}
use toki_sync.Tests.Codec.{plain_signer, pack, claim_fields}

abbrev pub jwt : JwtManager
jwt = record { signer = plain_signer; access_ttl_secs = 60; refresh_ttl_secs = 600; issuer = [] }

abbrev ada : User
ada = record {
  id = 1 ∷ [];
  username = 2 ∷ [];
  password_hash = 3 ∷ [];
  role = lit "user";
  active = true;
}

abbrev old_claims : Claims
old_claims = refresh_claims jwt (1 ∷ []) none 0 (9 ∷ [])

abbrev guard_with : Option ℕ → BruteForceGuard
guard_with lock = record (new 3 300 900 0) {
  inner =
      ((lit "ip" ++ 58 ∷ 2 ∷ []), record { count = 3; first_attempt = 0; locked_until = lock })
      ∷ [];
}

abbrev pub state : AppState
state = record {
  brute = new 3 300 900 0;
  users = ada ∷ [];
  tokens = new_token (9 ∷ []) (1 ∷ []) none 600 0 ∷ [];
  jwt = jwt;
  access_token_ttl_secs = 60;
  bcrypt_verify = λ password hash. some (str_eq password (lit "pw"));
}

abbrev pub draw : Draw
draw = record {
  readings = record {
    asked = 1;
    swept = 1;
    stamped = 1;
    checked = 1;
    failed = 2;
    failed_swept = 2;
    now = 5;
  };
  access_uuid = 11 ∷ [];
  refresh_uuid = 12 ∷ [];
}

abbrev pub signed : Claims → Str
signed c = pack (claim_fields c)

abbrev answer_to : ℕ → TokenResponse
answer_to now = record {
  access_token = signed (access_claims jwt (1 ∷ []) now (11 ∷ []));
  refresh_token = signed (refresh_claims jwt (1 ∷ []) none now (12 ∷ []));
  token_type = "Bearer";
  expires_in = 60;
}

abbrev request : Str → LoginRequest
request password = record { username = 2 ∷ []; password = password; device_id = none }

login-LoggedIn_example :
    LoggedIn state
      (request (lit "pw"))
      draw
      (login state (lit "ip") (request (lit "pw")) draw).0
      (answer_to 5)
unfolding login check sweep_if_due new key verdict_at lock_verdict get remove record_success
    get_user_by_username str_eq issue_access_token issue_refresh_token iss_claim store_refresh_token
    Tokens.find
login-LoggedIn_example =
    login-LoggedIn state (login state (lit "ip") (request (lit "pw")) draw).0 (lit "ip")
      (request (lit "pw")) draw (answer_to 5) refl

abbrev barred : AppState
barred = record state { brute = guard_with (some 1000000000) }

abbrev renewal : RefreshRequest
renewal = record { refresh_token = signed old_claims; device_id = none }

renewed :
    token_refresh state (lit "ip") renewal draw
    ≡ ((token_refresh state (lit "ip") renewal draw).0, ok (answer_to 5))
unfolding token_refresh check sweep_if_due new key verdict_at lock_verdict get remove record_success
    str_eq issue_access_token issue_refresh_token iss_claim store_refresh_token Tokens.find rotate
    verify_refresh has_type rotate_refresh_token is_refresh_token_revoked revoke_refresh_token
renewed = refl

renewed_jwt : (token_refresh state (lit "ip") renewal draw).0.jwt ≡ state.jwt
unfolding token_refresh check sweep_if_due new key verdict_at lock_verdict get remove record_success
    str_eq issue_access_token issue_refresh_token iss_claim store_refresh_token Tokens.find rotate
    verify_refresh has_type rotate_refresh_token is_refresh_token_revoked revoke_refresh_token
renewed_jwt = refl

replay_refused_example :
    (token_refresh (token_refresh state (lit "ip") renewal draw).0 (lit "ip") renewal draw).1
    ≢ ok (answer_to 5)
unfolding verify_refresh has_type iss_claim str_eq
replay_refused_example =
    replay_refused state (token_refresh state (lit "ip") renewal draw).0
      (token_refresh state (lit "ip") renewal draw).0 (lit "ip") (lit "ip") renewal renewal draw
      draw (answer_to 5) (answer_to 5) old_claims renewed refl (λ e. absurd (ground arith)) done
      renewed_jwt refl
