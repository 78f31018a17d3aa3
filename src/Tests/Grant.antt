-- ===== src/Tests/Grant.antt =====
-- The device grant and the OIDC states at concrete states.
use toki_sync.Prelude.{
  ◌≡◌, refl, Bool, true, false, none, some, List, [], ◌∷◌, Str, lit, str_eq, get, remove, retain,
}
use toki_sync.Limits.{from_secs}
use toki_sync.Limits.BruteForce.{
  new, key, check, record_success, sweep_if_due, verdict_at, lock_verdict,
}
use toki_sync.Db.Tokens.{store_refresh_token}
use toki_sync.Db.Tokens
use toki_sync.Db.DeviceCodes.{
  DeviceCode, get_device_code, get_device_code_by_user_code, approve_device_code,
}
use toki_sync.Auth.Jwt.{issue_access_token, issue_refresh_token, iss_claim, Claims}
use toki_sync.Auth.Device.{
  GrantState, DeviceTokenRequest, device_token_poll, normalized, ApproveDraw, device_approve,
  granted,
}
use toki_sync.Auth.Device.Once.{
  GrantCall, clean, request, poll, after_calls, is_granted, granted_once,
}
use toki_sync.Auth.Device.Approved.{HandedOver, device_token_poll-HandedOver}
use toki_sync.Auth.Device.Granting.{approved_then_granted}
use toki_sync.Auth.OidcState.{OidcStateStore, insert_state, validate}
use toki_sync.Auth.OidcState.Once.{
  StoreCall, inserted, validated, after_state_calls, validated_once,
}
use toki_sync.Tests.Auth.{jwt, state, draw}

abbrev pending_row : DeviceCode
pending_row = record {
  device_code = 7 ∷ [];
  user_code = lit "ABCD-EFGH";
  expires_at = 300;
  approved_by = none;
  access_token = none;
  refresh_token = none;
}

abbrev approved : DeviceCode
approved = record pending_row {
  approved_by = some (1 ∷ []);
  access_token = some (lit "a");
  refresh_token = some (lit "r");
}

abbrev grant : DeviceCode → GrantState
grant c = record { app = state; codes = c ∷ []; devices = []; device_poll_tracker = [] }

abbrev body : DeviceTokenRequest
body = record { device_code = 7 ∷ []; device_key = none; device_name = none }

abbrev no_uuid : Str → Bool
no_uuid s = false

abbrev same_case : Str → Str
same_case s = s

abbrev calls : List GrantCall
calls =
    clean 10
    ∷ request (lit "ip") (8 ∷ []) (lit "IJKL-MNOP") draw.readings
    ∷ poll body no_uuid 5 20
    ∷ []

granted_once_example :
    is_granted
      (device_token_poll
        (after_calls (device_token_poll (grant approved) body no_uuid 0 9).0 calls)
        body
        no_uuid
        (from_secs 30)
        30).1
    ≡ false
unfolding device_token_poll get retain str_eq get_device_code
granted_once_example =
    granted_once (grant approved) body no_uuid 0 9 calls body no_uuid (from_secs 30) 30 refl refl
      refl

abbrev keyed_body : DeviceTokenRequest
keyed_body = record {
  device_code = 7 ∷ [];
  device_key = some (lit "k");
  device_name = some (lit "laptop");
}

abbrev any_uuid : Str → Bool
any_uuid s = true

device_token_poll-HandedOver_example :
    HandedOver
      (grant approved)
      (device_token_poll (grant approved) keyed_body any_uuid 0 9).0
      keyed_body
      any_uuid
      9
      (lit "a")
      (lit "r")
unfolding device_token_poll get retain str_eq get_device_code
device_token_poll-HandedOver_example =
    device_token_poll-HandedOver (grant approved) keyed_body any_uuid 0 9 (lit "a") (lit "r") tt
      refl

abbrev approving : ApproveDraw
approving = record { readings = draw.readings; access_uuid = 11 ∷ []; refresh_uuid = 12 ∷ [] }

approved_then_granted_example :
    (access refresh : Str) × (claims : Claims) × (issue_access_token jwt (1 ∷ []) 5 (11 ∷ [])
      ≡ some access)
    × (issue_refresh_token jwt (1 ∷ []) none 5 (12 ∷ []) ≡ some (refresh, claims))
    × ((device_token_poll
          (device_approve
            (grant pending_row)
            (1 ∷ [])
            (lit "abcdefgh")
            (λ s. lit "ABCDEFGH")
            approving).0
          body
          no_uuid
          0
          9).1
        ≡ granted access refresh)
unfolding device_token_poll device_approve get retain str_eq get_device_code
    get_device_code_by_user_code normalized check sweep_if_due new key verdict_at lock_verdict
    remove record_success approve_device_code issue_access_token issue_refresh_token iss_claim
    store_refresh_token Tokens.find
approved_then_granted_example =
    approved_then_granted (grant pending_row) (1 ∷ []) (lit "abcdefgh") (λ s. lit "ABCDEFGH")
      approving (lit "ABCD-EFGH") pending_row body no_uuid 0 9 refl refl refl refl refl refl refl

abbrev store : OidcStateStore
store = record { states = []; ttl = 600 }

abbrev between : List StoreCall
between = inserted (2 ∷ []) (lit "/other") (4 ∷ []) 300 ∷ validated (2 ∷ []) 400 ∷ []

validated_once_example :
    ((validate
        (after_state_calls (insert_state store (1 ∷ []) (lit "/home") (3 ∷ []) 0) between)
        (1 ∷ [])
        500).1
      ≡ some (lit "/home", 3 ∷ []))
    × ((validate
          (after_state_calls
            (validate
              (after_state_calls (insert_state store (1 ∷ []) (lit "/home") (3 ∷ []) 0) between)
              (1 ∷ [])
              500).0
            between)
          (1 ∷ [])
          550).1
        ≡ none)
unfolding str_eq
validated_once_example =
    validated_once store (1 ∷ []) (lit "/home") (3 ∷ []) 0 500 550 between between tt refl refl
