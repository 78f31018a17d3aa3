-- ===== src/Db/Tokens.antt =====
-- The `refresh_tokens` table of src/db/sqlite.rs. Times are seconds since the epoch.
pub mod Rotation
use toki_sync.Prelude.{
  ℕ, Bool, true, false, ◌&&◌, ◌||◌, not, Option, none, some, List, [], ◌∷◌, Str, str_eq, filter,
  map, ltb, Result, ok, err, if◌then◌else◌,
}

pub record RefreshToken : Type 0 where
  pub jti : Str
  pub user_id : Str
  pub device_id : Option Str
  pub expires_at : ℕ
  pub revoked : Bool
  pub created_at : ℕ

pub data TokenError : Type 0 where
  constraint already_used : TokenError

unfoldable pub find : List RefreshToken → Str → Option RefreshToken
find [] jti = none
find (t ∷ ts) jti = if str_eq t.jti jti then some t else find ts jti

abbrev pub or_revoked : Option RefreshToken → Bool
or_revoked none = true
or_revoked (some t) = t.revoked

-- A token that is not found counts as revoked.
unfoldable pub is_refresh_token_revoked : List RefreshToken → Str → Bool
is_refresh_token_revoked ts jti = or_revoked (find ts jti)

abbrev pub new_token : Str → Str → Option Str → ℕ → ℕ → RefreshToken
new_token jti user_id device_id expires_at now = record {
  jti = jti;
  user_id = user_id;
  device_id = device_id;
  expires_at = expires_at;
  revoked = false;
  created_at = now;
}

-- `INSERT` into a table whose primary key is `jti`.
unfoldable pub store_refresh_token :
    List RefreshToken → Str → Str → Option Str → ℕ → ℕ → Result (List RefreshToken) TokenError
store_refresh_token ts jti user_id device_id expires_at now = elim (find ts jti) [
  | some _ ↦ err constraint
  | none ↦ ok (new_token jti user_id device_id expires_at now ∷ ts)
]

abbrev pub revoke_if : (RefreshToken → Bool) → RefreshToken → RefreshToken
revoke_if test t = if test t then record t { revoked = true } else t

unfoldable pub revoke_refresh_token : List RefreshToken → Str → List RefreshToken
revoke_refresh_token ts jti = map (revoke_if (λ t. str_eq t.jti jti)) ts

unfoldable pub revoke_user_refresh_tokens : List RefreshToken → Str → List RefreshToken
revoke_user_refresh_tokens ts user_id =
    map (revoke_if (λ t. str_eq t.user_id user_id && not t.revoked)) ts

-- One transaction: on an error the table stays as it was.
unfoldable pub rotate_refresh_token :
    List RefreshToken → Str → Str → Str → Option Str → ℕ → ℕ → Result (List RefreshToken) TokenError
rotate_refresh_token ts old_jti new_jti user_id device_id expires_at now =
    if is_refresh_token_revoked ts old_jti
    then err already_used
    else store_refresh_token (revoke_refresh_token ts old_jti) new_jti user_id device_id expires_at
        now

unfoldable pub cleanup_expired_tokens : List RefreshToken → ℕ → List RefreshToken
cleanup_expired_tokens ts now = filter (λ t. not (ltb t.expires_at now || t.revoked)) ts
