-- ===== src/Auth/Device/Registration.antt =====
-- The device that a poll of src/server/handlers/auth.rs registers when it hands over tokens.
use toki_sync.Prelude.{
  ℕ, ◌≡◌, ◌⊎◌, refl, ap, sym, ◌∙◌, Bool, true, false, not, ◌&&◌, ◌||◌, Option, none, some, List,
  Str, str_eq, str_eq_refl, is_empty, any, if◌then◌else◌, arith, Bool-cases, inl, inr,
}
use toki_sync.Db.Devices.{
  Device, find_device_by_key_and_user, create_device, truncate_device_name, owner, IsTable, created,
  created-Adopted,
}
use toki_sync.Auth.Device.{
  DeviceTokenRequest, or_unknown, or_unchanged, unless_found, register_device,
}

-- The request names a device by a UUID, and the account is known.
abbrev pub names_device : Str → (Str → Bool) → Str → Bool
names_device user_id is_uuid key = not (is_empty key) && not (is_empty user_id) && is_uuid key

-- The key stands in the table as an id or a key.
abbrev pub is_taken : List Device → Str → Bool
is_taken ds key = any (λ d. str_eq d.id key || str_eq d.device_key key) ds

-- The account has a device with the key, or the key is taken and the devices are as they were.
abbrev pub HasDevice : List Device → List Device → Str → Str → Type 0
HasDevice ds ds' user_id key =
    ((id : Str) × (find_device_by_key_and_user ds' key user_id ≡ some id))
    ⊎ ((find_device_by_key_and_user ds key user_id ≡ none) × (is_taken ds key ≡ true) × (ds' ≡ ds))

-- What becomes of the devices, by the key of the request. Without a key, or with one that names no
-- device, they stay.
abbrev pub Registered : List Device → List Device → Str → (Str → Bool) → Option Str → Type 0
Registered ds ds' user_id is_uuid none = ds' ≡ ds
Registered ds ds' user_id is_uuid (some key) =
    ((names_device user_id is_uuid key ≡ false) × (ds' ≡ ds))
    ⊎ ((names_device user_id is_uuid key ≡ true) × HasDevice ds ds' user_id key)

-- Every device that had an owner keeps it.
abbrev pub KeepsOwners : List Device → List Device → Type 0
KeepsOwners ds ds' = (id user_id : Str) → owner ds id ≡ some user_id → owner ds' id ≡ some user_id

created_found :
    (ds ds' : List Device) (user_id name key : Str) (now : ℕ)
    → create_device ds key user_id name key now ≡ some ds'
    → find_device_by_key_and_user ds' key user_id ≡ some key
unfolding create_device find_device_by_key_and_user
created_found ds ds' user_id name key now h = elim (Bool-cases (is_taken ds key)) [
  | inl e ↦ absurd (none_ne (rw e at h))
  | inr e ↦
      ap (λ r. find_device_by_key_and_user r key user_id) (sym (some_eq (rw e at h)))
      ∙ rw (str_eq_refl key, str_eq_refl user_id) refl
]
  where
    none_ne : Path (Option (List Device)) none (some ds') → ⊥
    none_ne q = ground arith

    some_eq : {r : List Device} → Path (Option (List Device)) (some r) (some ds') → r ≡ ds'
    some_eq q = ground arith

created_taken :
    (ds : List Device) (user_id name key : Str) (now : ℕ)
    → create_device ds key user_id name key now ≡ none
    → is_taken ds key ≡ true
unfolding create_device
created_taken ds user_id name key now h = elim (Bool-cases (is_taken ds key)) [
  | inl e ↦ e
  | inr e ↦ absurd (some_ne (rw e at h))
]
  where
    some_ne : {r : List Device} → Path (Option (List Device)) (some r) none → ⊥
    some_ne q = ground arith

module _ (ds : List Device) (user_id : Str) (is_uuid : Str → Bool) (now : ℕ) (t : IsTable ds) where
  Outcome : List Device → Option Str → Type 0
  Outcome ds' key = Registered ds ds' user_id is_uuid key × KeepsOwners ds ds'

  created_outcome :
      (name key : Str) (o : Option (List Device))
      → find_device_by_key_and_user ds key user_id ≡ none
      → create_device ds key user_id name key now ≡ o
      → HasDevice ds (or_unchanged ds o) user_id key × KeepsOwners ds (or_unchanged ds o)
  created_outcome name key none f e =
      (inr (f, created_taken ds user_id name key now e, refl), λ id u o. o)
  created_outcome name key (some ds') f e = (
    inl (key, created_found ds ds' user_id name key now e),
    (created-Adopted ds ds' user_id name key key now t (ap (created key) e)).1,
  )

  found_outcome :
      (name key : Str) (o : Option Str)
      → find_device_by_key_and_user ds key user_id ≡ o
      → let ds' = unless_found ds (or_unchanged ds (create_device ds key user_id name key now)) o in
        HasDevice ds ds' user_id key × KeepsOwners ds ds'
  found_outcome name key none e =
      created_outcome name key (create_device ds key user_id name key now) e refl
  found_outcome name key (some id) e = (inl (id, e), λ i u o. o)

  key_outcome :
      (ds' : List Device) (key : Str) (named : Bool)
      → names_device user_id is_uuid key ≡ named
      → HasDevice ds ds' user_id key × KeepsOwners ds ds'
      → Outcome (if named then ds' else ds) (some key)
  unfolding Outcome
  key_outcome ds' key true e h = (inr (e, h.0), h.1)
  key_outcome ds' key false e h = (inl (e, refl), λ i u o. o)

  device_outcome :
      (body : DeviceTokenRequest) (key : Option Str)
      → body.device_key ≡ key
      → Outcome (register_device ds user_id body is_uuid now) body.device_key
  unfolding Outcome
  device_outcome body none e = rw e (refl, λ i u o. o)
  device_outcome body (some key) e = rw e (
      key_outcome _ key (names_device user_id is_uuid key) refl (
        found_outcome (truncate_device_name (or_unknown body.device_name)) key
          (find_device_by_key_and_user ds key user_id) refl))

  pub register_device-Registered :
      (body : DeviceTokenRequest)
      → Registered ds (register_device ds user_id body is_uuid now) user_id is_uuid body.device_key
        × KeepsOwners ds (register_device ds user_id body is_uuid now)
  unfolding Outcome
  register_device-Registered body = device_outcome body body.device_key refl
