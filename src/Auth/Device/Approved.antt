-- ===== src/Auth/Device/Approved.antt =====
-- The device grant of src/server/handlers/auth.rs hands over only what an approval has stored.
use toki_sync.Prelude.{
  ℕ, ◌≡◌, refl, ap, [], HashMap, Bool, false, Option, none, some, Str, str_eq, if◌then◌else◌, get,
  retain, ltb, arith, Bool-cases, inl, inr,
}
use toki_sync.Db.DeviceCodes.{DeviceCode, get_device_code, get_device_code-delete_device_code}
use toki_sync.Db.Devices.{IsTable}
use toki_sync.Auth.Device.Registration.{Registered, KeepsOwners, register_device-Registered}
use toki_sync.Auth.Device.{
  GrantState, DeviceTokenRequest, PollAnswer, granted, slow_down, expired_token, code_gone,
  authorization_pending, is_tracked, too_soon, or_default, by_approval, with_row, device_token_poll,
}

-- The token of an answer that hands tokens over.
abbrev access_of : Str → PollAnswer → Str
access_of other slow_down = other
access_of other expired_token = other
access_of other code_gone = other
access_of other authorization_pending = other
access_of other (granted access refresh) = access

abbrev refresh_of : Str → PollAnswer → Str
refresh_of other slow_down = other
refresh_of other expired_token = other
refresh_of other code_gone = other
refresh_of other authorization_pending = other
refresh_of other (granted access refresh) = refresh

-- The row of the code is not expired, an account has approved it, and it holds the two tokens. No other
-- row goes.
pub record HandedOver (s s' : GrantState) (body : DeviceTokenRequest) (is_uuid : Str → Bool)
    (now : ℕ) (access refresh : Str) : Type 0 where
  pub code_row : DeviceCode
  pub user_id : Str
  pub found : get_device_code s.codes body.device_code ≡ some code_row
  pub unexpired : ltb code_row.expires_at now ≡ false
  pub approved : code_row.approved_by ≡ some user_id
  pub access_token : or_default code_row.access_token ≡ access
  pub refresh_token : or_default code_row.refresh_token ≡ refresh
  pub spent :
      (code : Str)
      → get_device_code s'.codes code
        ≡ (if str_eq body.device_code code then none else get_device_code s.codes code)
  pub registered : Registered s.devices s'.devices user_id is_uuid body.device_key
  pub owners : KeepsOwners s.devices s'.devices

by_approval-HandedOver :
    (s : GrantState) (body : DeviceTokenRequest) (is_uuid : Str → Bool) (now : ℕ) (dc : DeviceCode)
    (u : Option Str) (access refresh : Str)
    → IsTable s.devices
    → get_device_code s.codes body.device_code ≡ some dc
    → ltb dc.expires_at now ≡ false
    → dc.approved_by ≡ u
    → (by_approval s body is_uuid now dc u).1 ≡ granted access refresh
    → HandedOver s (by_approval s body is_uuid now dc u).0 body is_uuid now access refresh
by_approval-HandedOver s body is_uuid now dc none access refresh t f e a h = ground arith
by_approval-HandedOver s body is_uuid now dc (some u) access refresh t f e a h = record {
  code_row = dc;
  user_id = u;
  found = f;
  unexpired = e;
  approved = a;
  access_token = ap (access_of []) h;
  refresh_token = ap (refresh_of []) h;
  spent = get_device_code-delete_device_code s.codes body.device_code;
  registered = (register_device-Registered s.devices u is_uuid now t body).0;
  owners = (register_device-Registered s.devices u is_uuid now t body).1;
}

with_row-HandedOver :
    (s : GrantState) (body : DeviceTokenRequest) (is_uuid : Str → Bool) (now : ℕ)
    (row : Option DeviceCode) (access refresh : Str)
    → IsTable s.devices
    → get_device_code s.codes body.device_code ≡ row
    → (with_row s body is_uuid now row).1 ≡ granted access refresh
    → HandedOver s (with_row s body is_uuid now row).0 body is_uuid now access refresh
with_row-HandedOver s body is_uuid now none access refresh t f h = ground arith
with_row-HandedOver s body is_uuid now (some dc) access refresh t f h =
    elim (Bool-cases (ltb dc.expires_at now)) [
      | inl e ↦ absurd (refused (rw e at h))
      | inr e ↦ rw e (
          by_approval-HandedOver s body is_uuid now dc dc.approved_by access refresh t f e refl
            (rw e at h))
    ]
  where
    refused : code_gone ≡ granted access refresh → ⊥
    refused q = ground arith

-- A poll that hands over tokens found a row for the code that had not expired and that an account had
-- approved, and the tokens are those of the row. Then the code's row is gone and that of every other code
-- is as it was. If the request names no device by a UUID, then the devices stay; otherwise the account has
-- a device with the key, or the key was another's and the devices stay. Each device keeps its owner. No
-- device id stands twice in the table.
pub device_token_poll-HandedOver :
    (s : GrantState) (body : DeviceTokenRequest) (is_uuid : Str → Bool) (clock now : ℕ)
    (access refresh : Str)
    → IsTable s.devices
    → (device_token_poll s body is_uuid clock now).1 ≡ granted access refresh
    → HandedOver s (device_token_poll s body is_uuid clock now).0 body is_uuid now access refresh
unfolding device_token_poll
device_token_poll-HandedOver s body is_uuid clock now access refresh t h =
    elim (Bool-cases
      (too_soon clock (get (retain (is_tracked clock) s.device_poll_tracker) body.device_code))) [
        | inl e ↦ absurd (refused (rw e at h))
        | inr e ↦ rw e (
            polled (
              with_row-HandedOver _ body is_uuid now (get_device_code s.codes body.device_code)
                access refresh t refl (rw e at h)))
      ]
  where
    refused : slow_down ≡ granted access refresh → ⊥
    refused q = ground arith

    polled :
        {s' : GrantState} {m : HashMap ℕ}
        → HandedOver (record s { device_poll_tracker = m }) s' body is_uuid now access refresh
        → HandedOver s s' body is_uuid now access refresh
    polled q = record {
      code_row = q.code_row;
      user_id = q.user_id;
      found = q.found;
      unexpired = q.unexpired;
      approved = q.approved;
      access_token = q.access_token;
      refresh_token = q.refresh_token;
      spent = q.spent;
      registered = q.registered;
      owners = q.owners;
    }
