-- ===== src/Auth/Device/Once.antt =====
-- The device grant of src/server/handlers/auth.rs hands the tokens of a device code over once.
use toki_sync.Prelude.{
  ℕ, ◌≡◌, refl, Bool, true, false, not, Option, none, some, List, [], ◌∷◌, Str, get, retain, str_eq,
  ltb, arith, Bool-cases, inl, inr, all,
}
use toki_sync.Db.DeviceCodes.{
  DeviceCode, get_device_code, cleanup_expired_device_codes, Absent, cleanup-Absent, deleted-Absent,
}
use toki_sync.Auth.State.{Readings}
use toki_sync.Auth.Device.{
  GrantState, device_code_request, DeviceTokenRequest, PollAnswer, slow_down, expired_token,
  code_gone, authorization_pending, granted, is_tracked, too_soon, by_approval, with_row,
  device_token_poll, ApproveDraw, device_approve,
}
use toki_sync.Auth.Device.Absences.{
  device_token_poll-Absent, device_code_request-Absent, device_approve-Absent,
}

-- A call of the grant, with what the clock and the random generator give it.
pub data GrantCall : Type 0 where
  poll : DeviceTokenRequest → (Str → Bool) → ℕ → ℕ → GrantCall
  approve : Str → Str → (Str → Str) → ApproveDraw → GrantCall
  request : Str → Str → Str → Readings → GrantCall
  clean : ℕ → GrantCall

unfoldable pub after_call : GrantState → GrantCall → GrantState
after_call s (poll body is_uuid clock now) = (device_token_poll s body is_uuid clock now).0
after_call s (approve user_id user_code upper d) = (device_approve s user_id user_code upper d).0
after_call s (request ip device_code user_code r) =
    (device_code_request s ip device_code user_code r).0
after_call s (clean now) = record s { codes = cleanup_expired_device_codes s.codes now }

unfoldable pub after_calls : GrantState → List GrantCall → GrantState
after_calls s [] = s
after_calls s (c ∷ cs) = after_calls (after_call s c) cs

-- The call does not draw the device code.
abbrev pub draws_other : Str → GrantCall → Bool
draws_other code (poll body is_uuid clock now) = true
draws_other code (approve user_id user_code upper d) = true
draws_other code (request ip device_code user_code r) = not (str_eq device_code code)
draws_other code (clean now) = true

abbrev pub is_granted : PollAnswer → Bool
is_granted slow_down = false
is_granted expired_token = false
is_granted code_gone = false
is_granted authorization_pending = false
is_granted (granted access refresh) = true

-- A poll that hands tokens over leaves no row with the code.
by_approval-is_granted :
    (s : GrantState) (body : DeviceTokenRequest) (is_uuid : Str → Bool) (now : ℕ) (dc : DeviceCode)
    (u : Option Str)
    → is_granted (by_approval s body is_uuid now dc u).1 ≡ true
    → Absent (by_approval s body is_uuid now dc u).0.codes body.device_code
by_approval-is_granted s body is_uuid now dc none h = absurd (not_granted h)
  where
    not_granted : false ≡ true → ⊥
    not_granted q = ground arith
by_approval-is_granted s body is_uuid now dc (some u) h = deleted-Absent s.codes body.device_code

with_row-is_granted :
    (s : GrantState) (body : DeviceTokenRequest) (is_uuid : Str → Bool) (now : ℕ)
    (row : Option DeviceCode)
    → is_granted (with_row s body is_uuid now row).1 ≡ true
    → Absent (with_row s body is_uuid now row).0.codes body.device_code
with_row-is_granted s body is_uuid now none h = absurd (not_granted h)
  where
    not_granted : false ≡ true → ⊥
    not_granted q = ground arith
with_row-is_granted s body is_uuid now (some dc) h = elim (Bool-cases (ltb dc.expires_at now)) [
  | inl e ↦ rw e (deleted-Absent s.codes body.device_code)
  | inr e ↦ rw e (by_approval-is_granted s body is_uuid now dc dc.approved_by (rw e at h))
]

device_token_poll-is_granted :
    (s : GrantState) (body : DeviceTokenRequest) (is_uuid : Str → Bool) (clock now : ℕ)
    → is_granted (device_token_poll s body is_uuid clock now).1 ≡ true
    → Absent (device_token_poll s body is_uuid clock now).0.codes body.device_code
unfolding device_token_poll
device_token_poll-is_granted s body is_uuid clock now h =
    elim (Bool-cases
      (too_soon clock (get (retain (is_tracked clock) s.device_poll_tracker) body.device_code))) [
        | inl e ↦ absurd (refused (rw e at h))
        | inr e ↦ rw e (
            with_row-is_granted _ body is_uuid now (get_device_code s.codes body.device_code)
              (rw e at h))
      ]
  where
    refused : false ≡ true → ⊥
    refused q = ground arith

-- A poll for a code with no row hands nothing over.
device_token_poll_no_row :
    (s : GrantState) (body : DeviceTokenRequest) (is_uuid : Str → Bool) (clock now : ℕ)
    → Absent s.codes body.device_code
    → is_granted (device_token_poll s body is_uuid clock now).1 ≡ false
unfolding device_token_poll
device_token_poll_no_row s body is_uuid clock now h =
    elim (Bool-cases
      (too_soon clock (get (retain (is_tracked clock) s.device_poll_tracker) body.device_code))) [
        | inl e ↦ rw e refl
        | inr e ↦ rw (e, h) refl
      ]

after_call-Absent :
    (s : GrantState) (call : GrantCall) (code : Str)
    → draws_other code call ≡ true
    → Absent s.codes code
    → Absent (after_call s call).codes code
unfolding after_call
after_call-Absent s (poll body is_uuid clock now) code d h =
    device_token_poll-Absent s body is_uuid clock now code h
after_call-Absent s (approve user_id user_code upper r) code d h =
    device_approve-Absent s user_id user_code upper r code h
after_call-Absent s (request ip device_code user_code r) code d h =
    elim (Bool-cases (str_eq device_code code)) [
      | inl e ↦ absurd (drawn (rw e at d))
      | inr e ↦ device_code_request-Absent s ip device_code user_code r code e h
    ]
  where
    drawn : false ≡ true → ⊥
    drawn q = ground arith
after_call-Absent s (clean now) code d h = cleanup-Absent s.codes now code h

after_calls-Absent :
    (s : GrantState) (calls : List GrantCall) (code : Str)
    → all (draws_other code) calls ≡ true
    → Absent s.codes code
    → Absent (after_calls s calls).codes code
unfolding after_calls
after_calls-Absent s [] code d h = h
after_calls-Absent s (call ∷ calls) code d h = elim (Bool-cases (draws_other code call)) [
  | inl e ↦
      after_calls-Absent (after_call s call) calls code (rw e at d)
        (after_call-Absent s call code e h)
  | inr e ↦ absurd (refused (rw e at d))
]
  where
    refused : false ≡ true → ⊥
    refused q = ground arith

-- Once a poll has handed over the tokens of a device code, and as long as no later request draws the same
-- device code, no later poll for it hands tokens over, whatever polls, approvals, requests and clean-ups
-- come between.
pub granted_once :
    (s : GrantState) (body : DeviceTokenRequest) (is_uuid : Str → Bool) (clock now : ℕ)
    (calls : List GrantCall) (again : DeviceTokenRequest) (is_uuid' : Str → Bool) (clock' now' : ℕ)
    → is_granted (device_token_poll s body is_uuid clock now).1 ≡ true
    → all (draws_other body.device_code) calls ≡ true
    → again.device_code ≡ body.device_code
    → is_granted
        (device_token_poll
          (after_calls (device_token_poll s body is_uuid clock now).0 calls)
          again
          is_uuid'
          clock'
          now').1
      ≡ false
granted_once s body is_uuid clock now calls again is_uuid' clock' now' g d same =
    device_token_poll_no_row _ again is_uuid' clock' now' (
      rw same (
        after_calls-Absent _ calls body.device_code d
          (device_token_poll-is_granted s body is_uuid clock now g)))
