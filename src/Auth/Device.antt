-- ===== src/Auth/Device.antt =====
-- The device grant of src/server/handlers/auth.rs: `device_code_request`, `device_token_poll` and
-- `device_approve`. Each call is one step. Random codes, `String::to_uppercase` and the test for a UUID
-- are arguments.
pub mod Absences
pub mod Once
pub mod Registration
pub mod Approved
pub mod Granting
use toki_sync.Prelude.{
  ℕ, ◌+◌, ◌-◌, ◌≡◌, Bool, true, false, not, ◌&&◌, Option, none, some, List, [], ◌∷◌, ◌++◌, Str,
  HashMap, get, insert, remove, retain, lit, str_eq, is_empty, length, take, drop, any, filter, ltb,
  leb, ◌==◌, if◌then◌else◌, Result, ok, err,
}
use toki_sync.Limits.{from_secs}
use toki_sync.Db.Tokens.{RefreshToken, TokenError, store_refresh_token, revoke_refresh_token}
use toki_sync.Db.Devices.{Device, find_device_by_key_and_user, create_device, truncate_device_name}
use toki_sync.Db.DeviceCodes.{
  DeviceCode, create_device_code, get_device_code, get_device_code_by_user_code,
  approve_device_code, delete_device_code, is_pending, or_same,
}
use toki_sync.Auth.Jwt.{Claims, issue_access_token, issue_refresh_token}
use toki_sync.Auth.State.{
  AppError, internal, not_found, conflict, gone, locked_out, AppState, Readings,
}
use toki_sync.Auth.Login.{guarded, note_failure, note_success}

pub record GrantState : Type 0 where
  pub app : AppState
  pub codes : List DeviceCode
  pub devices : List Device
  pub device_poll_tracker : HashMap ℕ

-- `device_code_request`: the guard, and a code that lasts for five minutes.
abbrev pub with_created :
    GrantState → Option (List DeviceCode) → GrantState × Result (Unit {0}) AppError
with_created s none = (s, err internal)
with_created s (some codes) = (record s { codes = codes }, ok tt)

abbrev pub with_guard :
    GrantState → Str → Str → ℕ → Result (Unit {0}) ℕ → GrantState × Result (Unit {0}) AppError
with_guard s device_code user_code now (err secs) = (s, err (locked_out secs))
with_guard s device_code user_code now (ok _) =
    with_created s (create_device_code s.codes device_code user_code (now + 300))

abbrev pub if_unlocked : Result (Unit {0}) ℕ → AppState → AppState → AppState
if_unlocked (err secs) locked unlocked = locked
if_unlocked (ok _) locked unlocked = unlocked

unfoldable pub device_code_request :
    GrantState → Str → Str → Str → Readings → GrantState × Result (Unit {0}) AppError
device_code_request s ip device_code user_code r =
    let g = guarded s.app ip (lit "__device_code__") r in
    with_guard
      (record s { app = if_unlocked g.1 g.0 (note_success g.0 ip (lit "__device_code__")) })
      device_code user_code r.now g.1

pub record DeviceTokenRequest : Type 0 where
  pub device_code : Str
  pub device_key : Option Str
  pub device_name : Option Str

pub data PollAnswer : Type 0 where
  slow_down : PollAnswer
  expired_token : PollAnswer
  code_gone : PollAnswer
  authorization_pending : PollAnswer
  -- The access token and the refresh token.
  granted : Str → Str → PollAnswer

abbrev pub poll_interval : ℕ
poll_interval = from_secs 5

abbrev pub is_tracked : ℕ → ℕ → Bool
is_tracked clock at = ltb (clock - at) (from_secs 900)

abbrev pub too_soon : ℕ → Option ℕ → Bool
too_soon clock none = false
too_soon clock (some last) = ltb (clock - last) poll_interval

abbrev pub or_default : Option Str → Str
or_default none = []
or_default (some s) = s

abbrev pub or_unknown : Option Str → Str
or_unknown none = lit "unknown"
or_unknown (some s) = s

abbrev pub or_unchanged : List Device → Option (List Device) → List Device
or_unchanged ds none = ds
or_unchanged ds (some ds') = ds'

abbrev pub unless_found : List Device → List Device → Option Str → List Device
unless_found ds ds' (some id) = ds
unless_found ds ds' none = ds'

abbrev pub register_key : List Device → Str → Option Str → (Str → Bool) → ℕ → Str → List Device
register_key ds user_id name is_uuid now key =
    if not (is_empty key) && not (is_empty user_id) && is_uuid key
    then unless_found ds
        (or_unchanged ds
          (create_device ds key user_id (truncate_device_name (or_unknown name)) key now))
        (find_device_by_key_and_user ds key user_id)
    else ds

abbrev pub register_device : List Device → Str → DeviceTokenRequest → (Str → Bool) → ℕ → List Device
register_device ds user_id body is_uuid now = elim body.device_key [
  | none ↦ ds
  | some key ↦ register_key ds user_id body.device_name is_uuid now key
]

abbrev pub hand_over :
    GrantState → DeviceTokenRequest → (Str → Bool) → ℕ → DeviceCode → Str → GrantState × PollAnswer
hand_over s body is_uuid now dc user_id = (
  record s {
    codes = delete_device_code s.codes body.device_code;
    device_poll_tracker = remove s.device_poll_tracker body.device_code;
    devices = register_device s.devices user_id body is_uuid now;
  },
  granted (or_default dc.access_token) (or_default dc.refresh_token),
)

abbrev pub by_approval :
    GrantState
    → DeviceTokenRequest
    → (Str → Bool)
    → ℕ
    → DeviceCode
    → Option Str
    → GrantState × PollAnswer
by_approval s body is_uuid now dc none = (s, authorization_pending)
by_approval s body is_uuid now dc (some user_id) = hand_over s body is_uuid now dc user_id

abbrev pub with_row :
    GrantState → DeviceTokenRequest → (Str → Bool) → ℕ → Option DeviceCode → GrantState × PollAnswer
with_row s body is_uuid now none = (s, expired_token)
with_row s body is_uuid now (some dc) =
    if ltb dc.expires_at now
    then (record s { codes = delete_device_code s.codes body.device_code }, code_gone)
    else by_approval s body is_uuid now dc dc.approved_by

-- `clock` is monotonic, `now` the wall clock in seconds.
unfoldable pub device_token_poll :
    GrantState → DeviceTokenRequest → (Str → Bool) → ℕ → ℕ → GrantState × PollAnswer
device_token_poll s body is_uuid clock now =
    let swept = retain (is_tracked clock) s.device_poll_tracker in
    if too_soon clock (get swept body.device_code)
    then (record s { device_poll_tracker = swept }, slow_down)
    else with_row (record s { device_poll_tracker = insert swept body.device_code clock }) body
        is_uuid now (get_device_code s.codes body.device_code)

-- The user code as it is stored: upper case, no spaces, and a hyphen in the middle. `none` is a cut
-- inside a character, which panics.
abbrev pub continues_char : Str → Bool
continues_char [] = false
continues_char (b ∷ bs) = leb 128 b && ltb b 192

unfoldable pub normalized : (Str → Str) → Str → Option Str
normalized to_uppercase user_code =
    let s = filter (λ b. not (b == 32)) (to_uppercase user_code) in
    if length s == 8 && not (any (λ b. b == 45) s)
    then if continues_char (drop 4 s) then none else some (take 4 s ++ 45 ∷ drop 4 s)
    else some s

-- What the clock and the random generator give to an approval.
pub record ApproveDraw : Type 0 where
  pub readings : Readings
  pub access_uuid : Str
  pub refresh_uuid : Str

abbrev pub Approval : Type 0
Approval = GrantState × Result (Unit {0}) AppError

abbrev pub approve_name : Str
approve_name = lit "__device_approve__"

-- The tokens go into the row, if it is still not approved.
abbrev pub with_written :
    GrantState → Str → List RefreshToken → Str → List DeviceCode × Bool → Approval
with_written s user_id tokens jti (codes, false) = (
  record s { codes = codes; app = record s.app { tokens = revoke_refresh_token tokens jti } },
  err (conflict "code already approved or expired"),
)
with_written s user_id tokens jti (codes, true) = (
  record s {
    codes = codes;
    app = note_success (record s.app { tokens = tokens }) user_id approve_name;
  },
  ok tt,
)

abbrev pub with_stored :
    GrantState → Str → Str → Str → Str → Str → Result (List RefreshToken) TokenError → Approval
with_stored s user_id user_code access refresh jti (err e) = (s, err internal)
with_stored s user_id user_code access refresh jti (ok tokens) =
    with_written s user_id tokens jti (approve_device_code s.codes user_code user_id access refresh)

abbrev pub with_tokens : GrantState → Str → Str → ℕ → Option Str → Option (Str × Claims) → Approval
with_tokens s user_id user_code now none refresh = (s, err internal)
with_tokens s user_id user_code now (some access) none = (s, err internal)
with_tokens s user_id user_code now (some access) (some (refresh, c)) =
    with_stored s user_id user_code access refresh c.jti
      (store_refresh_token s.app.tokens c.jti c.sub c.did c.exp now)

abbrev pub with_pending : GrantState → Str → Str → ApproveDraw → Option DeviceCode → Approval
with_pending s user_id user_code d none = (
  record s { app = note_failure s.app user_id approve_name d.readings },
  err (not_found "invalid or expired code"),
)
with_pending s user_id user_code d (some dc) =
    if ltb dc.expires_at d.readings.now
    then (record s { codes = delete_device_code s.codes dc.device_code }, err (gone "code expired"))
    else if not (is_pending dc)
    then (s, err (conflict "code already approved"))
    else with_tokens s user_id user_code d.readings.now
        (issue_access_token s.app.jwt user_id d.readings.now d.access_uuid)
        (issue_refresh_token s.app.jwt user_id none d.readings.now d.refresh_uuid)

abbrev pub with_code : GrantState → Str → ApproveDraw → Option Str → Approval
with_code s user_id d none = (s, err internal)
with_code s user_id d (some user_code) =
    with_pending s user_id user_code d (get_device_code_by_user_code s.codes user_code)

abbrev pub if_not_locked :
    GrantState → Str → Str → (Str → Str) → ApproveDraw → Result (Unit {0}) ℕ → Approval
if_not_locked s user_id user_code upper d (err secs) = (s, err (locked_out secs))
if_not_locked s user_id user_code upper d (ok _) =
    with_code s user_id d (normalized upper user_code)

-- `user_id` is the subject of the token that authenticated the request.
unfoldable pub device_approve : GrantState → Str → Str → (Str → Str) → ApproveDraw → Approval
device_approve s user_id user_code upper d =
    let g = guarded s.app user_id approve_name d.readings in
    if_not_locked (record s { app = g.0 }) user_id user_code upper d g.1
