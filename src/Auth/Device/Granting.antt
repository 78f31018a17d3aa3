-- ===== src/Auth/Device/Granting.antt =====
-- The device grant of src/server/handlers/auth.rs from the approval to the poll that follows it.
use toki_sync.Prelude.{
  ℕ, ◌≡◌, refl, ap, ◌∙◌, List, Bool, true, false, Option, none, some, Str, get, retain, ltb, arith,
  Bool-cases, inl, inr, Result, ok, err,
}
use toki_sync.Db.Tokens.{RefreshToken, TokenError, store_refresh_token}
use toki_sync.Db.DeviceCodes.{
  DeviceCode, get_device_code, get_device_code_by_user_code, approve_device_code, is_pending,
  get_device_code-approve_device_code,
}
use toki_sync.Auth.Jwt.{JwtManager, Claims, issue_access_token, issue_refresh_token}
use toki_sync.Auth.State.{AppError}
use toki_sync.Auth.Login.{guarded}
use toki_sync.Auth.Device.{
  GrantState, DeviceTokenRequest, granted, is_tracked, too_soon, device_token_poll, normalized,
  approve_name, ApproveDraw, with_written, with_stored, with_tokens, with_pending, if_not_locked,
  device_approve,
}

-- An approval that succeeded: the two tokens were signed and are in the pending row of the user code.
record Approves (m : JwtManager) (cs cs' : List DeviceCode) (user_id uc : Str) (row : DeviceCode)
    (d : ApproveDraw) : Type 0 where
  access : Str
  refresh : Str
  claims : Claims
  pending : is_pending row ≡ true
  signed : issue_access_token m user_id d.readings.now d.access_uuid ≡ some access
  renewed :
      issue_refresh_token m user_id none d.readings.now d.refresh_uuid ≡ some (refresh, claims)
  written : cs' ≡ (approve_device_code cs uc user_id access refresh).0

with_written_codes :
    (s : GrantState) (user_id : Str) (tokens : List RefreshToken) (jti : Str)
    (w : List DeviceCode × Bool)
    → (with_written s user_id tokens jti w).0.codes ≡ w.0
with_written_codes s user_id tokens jti (codes, false) = refl
with_written_codes s user_id tokens jti (codes, true) = refl

with_stored_codes :
    (s : GrantState) (user_id uc access refresh jti : Str)
    (w : Result (List RefreshToken) TokenError)
    → (with_stored s user_id uc access refresh jti w).1 ≡ ok tt
    → (with_stored s user_id uc access refresh jti w).0.codes
      ≡ (approve_device_code s.codes uc user_id access refresh).0
with_stored_codes s user_id uc access refresh jti (err e) h = ground arith
with_stored_codes s user_id uc access refresh jti (ok tokens) h =
    with_written_codes s user_id tokens jti (approve_device_code s.codes uc user_id access refresh)

with_tokens-Approves :
    (s : GrantState) (user_id uc : Str) (row : DeviceCode) (d : ApproveDraw) (a : Option Str)
    (r : Option (Str × Claims))
    → is_pending row ≡ true
    → issue_access_token s.app.jwt user_id d.readings.now d.access_uuid ≡ a
    → issue_refresh_token s.app.jwt user_id none d.readings.now d.refresh_uuid ≡ r
    → (with_tokens s user_id uc d.readings.now a r).1 ≡ ok tt
    → Approves s.app.jwt s.codes
        (with_tokens s user_id uc d.readings.now a r).0.codes
        user_id
        uc
        row
        d
with_tokens-Approves s user_id uc row d none r p ea er h = ground arith
with_tokens-Approves s user_id uc row d (some access) none p ea er h = ground arith
with_tokens-Approves s user_id uc row d (some access) (some (refresh, c)) p ea er h = record {
  access = access;
  refresh = refresh;
  claims = c;
  pending = p;
  signed = ea;
  renewed = er;
  written =
      with_stored_codes s user_id uc access refresh c.jti
        (store_refresh_token s.app.tokens c.jti c.sub c.did c.exp d.readings.now) h;
}

with_pending-Approves :
    (s : GrantState) (user_id uc : Str) (row : DeviceCode) (d : ApproveDraw)
    → (with_pending s user_id uc d (some row)).1 ≡ ok tt
    → Approves s.app.jwt s.codes (with_pending s user_id uc d (some row)).0.codes user_id uc row d
with_pending-Approves s user_id uc row d h = elim (Bool-cases (ltb row.expires_at d.readings.now)) [
  | inl e ↦ absurd (refused _ (rw e at h))
  | inr e ↦ elim (Bool-cases (is_pending row)) [
    | inl p ↦
        rw (e, p)
          (with_tokens-Approves s user_id uc row d
            (issue_access_token s.app.jwt user_id d.readings.now d.access_uuid)
            (issue_refresh_token s.app.jwt user_id none d.readings.now d.refresh_uuid) p refl refl
            (rw (e, p) at h))
    | inr p ↦ absurd (refused _ (rw (e, p) at h))
  ]
]
  where
    refused : (e : AppError) → Path (Result (Unit {0}) AppError) (err e) (ok tt) → ⊥
    refused e q = ground arith

if_not_locked-Approves :
    (s : GrantState) (user_id user_code : Str) (upper : Str → Str) (d : ApproveDraw)
    (g : Result (Unit {0}) ℕ) (uc : Str) (row : DeviceCode)
    → normalized upper user_code ≡ some uc
    → get_device_code_by_user_code s.codes uc ≡ some row
    → (if_not_locked s user_id user_code upper d g).1 ≡ ok tt
    → Approves s.app.jwt s.codes
        (if_not_locked s user_id user_code upper d g).0.codes
        user_id
        uc
        row
        d
if_not_locked-Approves s user_id user_code upper d (err secs) uc row n f h = ground arith
if_not_locked-Approves s user_id user_code upper d (ok u) uc row n f h =
    rw (n, f) (with_pending-Approves s user_id uc row d (rw (n, f) at h))

device_approve-Approves :
    (s : GrantState) (user_id user_code : Str) (upper : Str → Str) (d : ApproveDraw) (uc : Str)
    (row : DeviceCode)
    → normalized upper user_code ≡ some uc
    → get_device_code_by_user_code s.codes uc ≡ some row
    → (device_approve s user_id user_code upper d).1 ≡ ok tt
    → Approves s.app.jwt s.codes
        (device_approve s user_id user_code upper d).0.codes
        user_id
        uc
        row
        d
unfolding device_approve
device_approve-Approves s user_id user_code upper d uc row n f h =
    if_not_locked-Approves _ user_id user_code upper d
      (guarded s.app user_id approve_name d.readings).1 uc row n f h

-- A poll that is not too soon, for a code whose row has not expired and is approved.
device_token_poll_approved :
    (s : GrantState) (body : DeviceTokenRequest) (is_uuid : Str → Bool) (clock now : ℕ)
    (dc : DeviceCode) (user_id access refresh : Str)
    → too_soon clock (get (retain (is_tracked clock) s.device_poll_tracker) body.device_code)
      ≡ false
    → get_device_code s.codes body.device_code
      ≡ some (record dc {
        approved_by = some user_id;
        access_token = some access;
        refresh_token = some refresh;
      })
    → ltb dc.expires_at now ≡ false
    → (device_token_poll s body is_uuid clock now).1 ≡ granted access refresh
unfolding device_token_poll
device_token_poll_approved s body is_uuid clock now dc user_id access refresh t f e =
    rw (t, f, e) refl

-- When an account has approved a pending user code, then a poll for the device code of the same row gets
-- an access token and a refresh token that were signed for that account at the approval. The poll is at
-- least five seconds after the last one for the code, and not after the row expires. The table has no other
-- row under the device code.
pub approved_then_granted :
    (s : GrantState) (user_id user_code : Str) (upper : Str → Str) (d : ApproveDraw) (uc : Str)
    (row : DeviceCode) (body : DeviceTokenRequest) (is_uuid : Str → Bool) (clock now : ℕ)
    → normalized upper user_code ≡ some uc
    → get_device_code_by_user_code s.codes uc ≡ some row
    → get_device_code s.codes row.device_code ≡ some row
    → (device_approve s user_id user_code upper d).1 ≡ ok tt
    → body.device_code ≡ row.device_code
    → too_soon clock (
        get
          (retain
            (is_tracked clock)
            (device_approve s user_id user_code upper d).0.device_poll_tracker)
          body.device_code)
      ≡ false
    → ltb row.expires_at now ≡ false
    → (access refresh : Str) × (claims : Claims) × (issue_access_token s.app.jwt user_id
          d.readings.now d.access_uuid
        ≡ some access)
      × (issue_refresh_token s.app.jwt user_id none d.readings.now d.refresh_uuid
          ≡ some (refresh, claims))
      × ((device_token_poll (device_approve s user_id user_code upper d).0 body is_uuid clock now).1
          ≡ granted access refresh)
approved_then_granted s user_id user_code upper d uc row body is_uuid clock now n f k h same t e =
    let a = device_approve-Approves s user_id user_code upper d uc row n f h in
    (
      a.access,
      a.refresh,
      a.claims,
      a.signed,
      a.renewed,
      device_token_poll_approved _ body is_uuid clock now row user_id a.access a.refresh t
          (ap (get_device_code (device_approve s user_id user_code upper d).0.codes) same
            ∙ ap (λ cs. get_device_code cs row.device_code) a.written
            ∙ get_device_code-approve_device_code s.codes uc user_id a.access a.refresh row f
                a.pending k)
          e,
    )
