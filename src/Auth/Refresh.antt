-- ===== src/Auth/Refresh.antt =====
-- `token_refresh` of src/server/handlers/auth.rs.
use toki_sync.Prelude.{
  ℕ, ◌+◌, ◌≡◌, ◌≢◌, sym, ap, subst, Option, some, List, Str, lit, Result, ok, err, arith,
}
use toki_sync.Db.Tokens.{RefreshToken, TokenError, rotate_refresh_token, already_used}
use toki_sync.Db.Tokens.Rotation.{rotates_once, Steps}
use toki_sync.Auth.Jwt.{
  JwtError, Claims, rotate, Rotated, rotate-Rotated, verify_refresh, verify_refresh_once,
}
use toki_sync.Auth.State.{unauthorized, locked_out, TokenResponse, AppState}
use toki_sync.Auth.Login.{Draw, Outcome, guarded, note_failure, note_success, response}

pub record RefreshRequest : Type 0 where
  pub refresh_token : Str
  pub device_id : Option Str

abbrev pub bucket : Str
bucket = lit "__refresh__"

abbrev pub with_rotation :
    AppState → Str → Draw → Result (Str × Str × List RefreshToken) JwtError → Outcome
with_rotation s ip d (ok (access, refresh, tokens)) =
    let s' = note_success s ip bucket in
    (record s' { tokens = tokens }, ok (response s access refresh))
with_rotation s ip d (err _) =
    (note_failure s ip bucket d.readings, err (unauthorized "invalid or expired refresh token"))

abbrev pub refresh_with : AppState → Str → RefreshRequest → Draw → Result (Unit {0}) ℕ → Outcome
refresh_with s ip body d (err secs) = (s, err (locked_out secs))
refresh_with s ip body d (ok _) = with_rotation s ip d (
    rotate s.jwt s.tokens body.refresh_token body.device_id d.readings.now d.access_uuid
      d.refresh_uuid)

unfoldable pub token_refresh : AppState → Str → RefreshRequest → Draw → Outcome
token_refresh s ip body d = let g = guarded s ip bucket d.readings in refresh_with g.0 ip body d g.1

rotation_sound :
    (s s' : AppState) (ip : Str) (d : Draw) (r : Result (Str × Str × List RefreshToken) JwtError)
    (resp : TokenResponse)
    → with_rotation s ip d r ≡ (s', ok resp)
    → r ≡ ok (resp.access_token, resp.refresh_token, s'.tokens)
rotation_sound s s' ip d (ok (access, refresh, tokens)) resp h = ground arith
rotation_sound s s' ip d (err e) resp h = absurd (ground arith)

refresh_sound :
    (s s' : AppState) (ip : Str) (body : RefreshRequest) (d : Draw) (v : Result (Unit {0}) ℕ)
    (resp : TokenResponse)
    → refresh_with s ip body d v ≡ (s', ok resp)
    → rotate s.jwt s.tokens body.refresh_token body.device_id d.readings.now d.access_uuid
        d.refresh_uuid
      ≡ ok (resp.access_token, resp.refresh_token, s'.tokens)
refresh_sound s s' ip body d (err secs) resp h = absurd (ground arith)
refresh_sound s s' ip body d (ok _) resp h =
    rotation_sound s s' ip d
      (rotate s.jwt s.tokens body.refresh_token body.device_id d.readings.now d.access_uuid
        d.refresh_uuid)
      resp h

-- A refresh that goes through read the claims of a valid refresh token, put the new one in its place in
-- the table, and issued both tokens to the same user.
pub token_refresh-Rotated :
    (s s' : AppState) (ip : Str) (body : RefreshRequest) (d : Draw) (resp : TokenResponse)
    → token_refresh s ip body d ≡ (s', ok resp)
    → Rotated s.jwt s.tokens body.refresh_token body.device_id d.readings.now d.access_uuid
        d.refresh_uuid resp.access_token resp.refresh_token s'.tokens
unfolding token_refresh
token_refresh-Rotated s s' ip body d resp h =
    let g = guarded s ip bucket d.readings in
    rotate-Rotated s.jwt s.tokens body.refresh_token body.device_id d.readings.now d.access_uuid
      d.refresh_uuid resp.access_token resp.refresh_token s'.tokens
      (refresh_sound g.0 s' ip body d g.1 resp h)

refused_ok :
    {r : Result (List RefreshToken) TokenError} (tokens : List RefreshToken)
    → r ≡ ok tokens
    → r ≢ err already_used
refused_ok tokens h k = absurd (ground arith)

-- A refresh token serves one refresh. Once a refresh with it has gone through, and as long as no later
-- token is issued with its id, no refresh with the same token goes through any more, whoever asks and
-- whatever else has happened to the table of tokens.
pub replay_refused :
    (s s' t : AppState) (ip ip' : Str) (body body' : RefreshRequest) (d d' : Draw)
    (resp resp' : TokenResponse) (c : Claims)
    → token_refresh s ip body d ≡ (s', ok resp)
    → verify_refresh s.jwt body.refresh_token d.readings.now ≡ some c
    → c.jti ≢ d.refresh_uuid
    → Steps c.jti s'.tokens t.tokens
    → t.jwt ≡ s.jwt
    → body'.refresh_token ≡ body.refresh_token
    → (token_refresh t ip' body' d').1 ≢ ok resp'
replay_refused s s' t ip ip' body body' d d' resp resp' c h v fresh steps same again k =
    let first = token_refresh-Rotated s s' ip body d resp h in
    let t' = (token_refresh t ip' body' d').0 in
    let next = token_refresh-Rotated t t' ip' body' d' resp' (ap (λ r. (t', r)) k) in
    let read = rw same at (rw again at next.verified) in
    let eq =
      verify_refresh_once s.jwt body.refresh_token d.readings.now d'.readings.now c next.claims v
        read in
    let eq' =
      verify_refresh_once s.jwt body.refresh_token d.readings.now d.readings.now first.claims c
        first.verified v in
    let refused =
      rotates_once s.tokens s'.tokens t.tokens c.jti d.refresh_uuid first.claims.sub d'.refresh_uuid
        next.claims.sub body.device_id body'.device_id (d.readings.now + s.jwt.refresh_ttl_secs)
        d.readings.now (d'.readings.now + t.jwt.refresh_ttl_secs) d'.readings.now
        (subst
          (λ x.
            rotate_refresh_token s.tokens x.jti d.refresh_uuid first.claims.sub body.device_id
              (d.readings.now + s.jwt.refresh_ttl_secs) d.readings.now
            ≡ ok s'.tokens)
          eq' first.replaced)
        fresh steps in
    let went =
      subst
        (λ x.
          rotate_refresh_token t.tokens x.jti d'.refresh_uuid next.claims.sub body'.device_id
            (d'.readings.now + t.jwt.refresh_ttl_secs) d'.readings.now
          ≡ ok t'.tokens)
        (sym eq) next.replaced in
    refused_ok t'.tokens went refused
