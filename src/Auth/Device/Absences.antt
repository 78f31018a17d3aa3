-- ===== src/Auth/Device/Absences.antt =====
-- The calls of the device grant of src/server/handlers/auth.rs on a code that the table does not hold.
use toki_sync.Prelude.{
  ℕ, ◌+◌, ◌≡◌, Bool, true, false, Option, none, some, List, Str, get, retain, str_eq, ltb, Result,
  ok, err, Bool-cases, inl, inr, lit,
}
use toki_sync.Db.Tokens.{RefreshToken, TokenError, store_refresh_token}
use toki_sync.Db.DeviceCodes.{
  DeviceCode, create_device_code, get_device_code, get_device_code_by_user_code,
  approve_device_code, is_pending, or_same, Absent, delete-Absent, approve-Absent, create-Absent,
}
use toki_sync.Auth.Jwt.{Claims, issue_access_token, issue_refresh_token}
use toki_sync.Auth.State.{Readings}
use toki_sync.Auth.Login.{guarded}
use toki_sync.Auth.Device.{
  GrantState, with_guard, with_created, device_code_request, DeviceTokenRequest, is_tracked,
  too_soon, by_approval, with_row, device_token_poll, normalized, approve_name, ApproveDraw,
  with_written, with_stored, with_tokens, with_pending, with_code, if_not_locked, device_approve,
}

by_approval-Absent :
    (s : GrantState) (body : DeviceTokenRequest) (is_uuid : Str → Bool) (now : ℕ) (dc : DeviceCode)
    (u : Option Str) (code : Str)
    → Absent s.codes code
    → Absent (by_approval s body is_uuid now dc u).0.codes code
by_approval-Absent s body is_uuid now dc none code h = h
by_approval-Absent s body is_uuid now dc (some u) code h =
    delete-Absent s.codes body.device_code code h

with_row-Absent :
    (s : GrantState) (body : DeviceTokenRequest) (is_uuid : Str → Bool) (now : ℕ)
    (row : Option DeviceCode) (code : Str)
    → Absent s.codes code
    → Absent (with_row s body is_uuid now row).0.codes code
with_row-Absent s body is_uuid now none code h = h
with_row-Absent s body is_uuid now (some dc) code h = elim (Bool-cases (ltb dc.expires_at now)) [
  | inl e ↦ rw e (delete-Absent s.codes body.device_code code h)
  | inr e ↦ rw e (by_approval-Absent s body is_uuid now dc dc.approved_by code h)
]

pub device_token_poll-Absent :
    (s : GrantState) (body : DeviceTokenRequest) (is_uuid : Str → Bool) (clock now : ℕ) (code : Str)
    → Absent s.codes code
    → Absent (device_token_poll s body is_uuid clock now).0.codes code
unfolding device_token_poll
device_token_poll-Absent s body is_uuid clock now code h =
    elim (Bool-cases
      (too_soon clock (get (retain (is_tracked clock) s.device_poll_tracker) body.device_code))) [
        | inl e ↦ rw e h
        | inr e ↦
            rw e
              (with_row-Absent _ body is_uuid now (get_device_code s.codes body.device_code) code h)
      ]

with_created-Absent :
    (s : GrantState) (cs : Option (List DeviceCode)) (code : Str)
    → Absent (or_same s.codes cs) code
    → Absent (with_created s cs).0.codes code
with_created-Absent s none code h = h
with_created-Absent s (some cs) code h = h

with_guard-Absent :
    (s : GrantState) (device_code user_code : Str) (now : ℕ) (g : Result (Unit {0}) ℕ) (code : Str)
    → str_eq device_code code ≡ false
    → Absent s.codes code
    → Absent (with_guard s device_code user_code now g).0.codes code
with_guard-Absent s device_code user_code now (err secs) code d h = h
with_guard-Absent s device_code user_code now (ok u) code d h =
    with_created-Absent s (create_device_code s.codes device_code user_code (now + 300)) code
      (create-Absent s.codes device_code user_code (now + 300) code d h)

pub device_code_request-Absent :
    (s : GrantState) (ip device_code user_code : Str) (r : Readings) (code : Str)
    → str_eq device_code code ≡ false
    → Absent s.codes code
    → Absent (device_code_request s ip device_code user_code r).0.codes code
unfolding device_code_request
device_code_request-Absent s ip device_code user_code r code d h =
    with_guard-Absent _ device_code user_code r.now (guarded s.app ip (lit "__device_code__") r).1
      code d h

with_written-Absent :
    (s : GrantState) (user_id : Str) (tokens : List RefreshToken) (jti : Str)
    (w : List DeviceCode × Bool) (code : Str)
    → Absent w.0 code
    → Absent (with_written s user_id tokens jti w).0.codes code
with_written-Absent s user_id tokens jti (codes, false) code h = h
with_written-Absent s user_id tokens jti (codes, true) code h = h

with_stored-Absent :
    (s : GrantState) (user_id user_code access refresh jti : Str)
    (w : Result (List RefreshToken) TokenError) (code : Str)
    → Absent s.codes code
    → Absent (with_stored s user_id user_code access refresh jti w).0.codes code
with_stored-Absent s user_id user_code access refresh jti (err e) code h = h
with_stored-Absent s user_id user_code access refresh jti (ok tokens) code h =
    with_written-Absent s user_id tokens jti
      (approve_device_code s.codes user_code user_id access refresh) code
      (approve-Absent s.codes user_code user_id access refresh code h)

with_tokens-Absent :
    (s : GrantState) (user_id user_code : Str) (now : ℕ) (a : Option Str)
    (r : Option (Str × Claims)) (code : Str)
    → Absent s.codes code
    → Absent (with_tokens s user_id user_code now a r).0.codes code
with_tokens-Absent s user_id user_code now none r code h = h
with_tokens-Absent s user_id user_code now (some access) none code h = h
with_tokens-Absent s user_id user_code now (some access) (some (refresh, c)) code h =
    with_stored-Absent s user_id user_code access refresh c.jti
      (store_refresh_token s.app.tokens c.jti c.sub c.did c.exp now) code h

with_pending-Absent :
    (s : GrantState) (user_id user_code : Str) (d : ApproveDraw) (row : Option DeviceCode)
    (code : Str)
    → Absent s.codes code
    → Absent (with_pending s user_id user_code d row).0.codes code
with_pending-Absent s user_id user_code d none code h = h
with_pending-Absent s user_id user_code d (some dc) code h =
    elim (Bool-cases (ltb dc.expires_at d.readings.now)) [
      | inl e ↦ rw e (delete-Absent s.codes dc.device_code code h)
      | inr e ↦ elim (Bool-cases (is_pending dc)) [
        | inl p ↦
            rw (e, p)
              (with_tokens-Absent s user_id user_code d.readings.now
                (issue_access_token s.app.jwt user_id d.readings.now d.access_uuid)
                (issue_refresh_token s.app.jwt user_id none d.readings.now d.refresh_uuid) code h)
        | inr p ↦ rw (e, p) h
      ]
    ]

with_code-Absent :
    (s : GrantState) (user_id : Str) (d : ApproveDraw) (c : Option Str) (code : Str)
    → Absent s.codes code
    → Absent (with_code s user_id d c).0.codes code
with_code-Absent s user_id d none code h = h
with_code-Absent s user_id d (some user_code) code h =
    with_pending-Absent s user_id user_code d (get_device_code_by_user_code s.codes user_code) code
      h

if_not_locked-Absent :
    (s : GrantState) (user_id user_code : Str) (upper : Str → Str) (d : ApproveDraw)
    (g : Result (Unit {0}) ℕ) (code : Str)
    → Absent s.codes code
    → Absent (if_not_locked s user_id user_code upper d g).0.codes code
if_not_locked-Absent s user_id user_code upper d (err secs) code h = h
if_not_locked-Absent s user_id user_code upper d (ok u) code h =
    with_code-Absent s user_id d (normalized upper user_code) code h

pub device_approve-Absent :
    (s : GrantState) (user_id user_code : Str) (upper : Str → Str) (d : ApproveDraw) (code : Str)
    → Absent s.codes code
    → Absent (device_approve s user_id user_code upper d).0.codes code
unfolding device_approve
device_approve-Absent s user_id user_code upper d code h =
    if_not_locked-Absent _ user_id user_code upper d
      (guarded s.app user_id approve_name d.readings).1 code h
