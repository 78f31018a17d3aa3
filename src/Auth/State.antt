-- ===== src/Auth/State.antt =====
-- The part of `AppState` that the sign-in handlers share, and `AppError` of src/server/http.rs.
-- Failures of the database connection are not modelled: a method fails by its constraints alone.
use toki_sync.Prelude.{
  ℕ, Bool, Option, none, some, List, [], ◌∷◌, Str, String, str_eq, if◌then◌else◌,
}
use toki_sync.Db.Tokens.{RefreshToken}
use toki_sync.Limits.BruteForce.{BruteForceGuard}
use toki_sync.Auth.Jwt.{JwtManager}

pub record User : Type 0 where
  pub id : Str
  pub username : Str
  pub password_hash : Str
  pub role : Str
  pub active : Bool

-- The status is told by the constructor.
pub data AppError : Type 0 where
  internal : AppError
  unauthorized forbidden not_found conflict gone : String → AppError
  locked_out : ℕ → AppError

pub record TokenResponse : Type 0 where
  pub access_token : Str
  pub refresh_token : Str
  pub token_type : String
  pub expires_in : ℕ

pub record AppState : Type 0 where
  pub brute : BruteForceGuard
  pub users : List User
  pub tokens : List RefreshToken
  pub jwt : JwtManager
  pub access_token_ttl_secs : ℕ
  -- `bcrypt::verify`: the password and the hash; an error is `none`.
  pub bcrypt_verify : Str → Str → Option Bool

-- The clock readings of one request: those of `check`, those of `record_failure`, and the wall clock.
pub record Readings : Type 0 where
  pub asked : ℕ
  pub swept : ℕ
  pub stamped : ℕ
  pub checked : ℕ
  pub failed : ℕ
  pub failed_swept : ℕ
  pub now : ℕ

-- `SELECT … FROM users WHERE username = ?`
unfoldable pub get_user_by_username : List User → Str → Option User
get_user_by_username [] username = none
get_user_by_username (u ∷ us) username =
    if str_eq u.username username then some u else get_user_by_username us username
