-- ===== src/Db/DeviceCodes.antt =====
-- The `device_codes` table of src/db/sqlite.rs. The device code is its primary key, and the user code is
-- unique.
use toki_sync.Prelude.{
  ℕ, ◌≡◌, refl, ap, sym, ◌∙◌, Bool, true, false, not, ◌&&◌, ◌||◌, Option, none, some, List, [], ◌∷◌,
  map, Str, str_eq, str_eq_iff, any, filter, ltb, if◌then◌else◌, arith, Bool-cases, inl, inr,
}

pub record DeviceCode : Type 0 where
  pub device_code : Str
  pub user_code : Str
  pub expires_at : ℕ
  pub approved_by : Option Str
  pub access_token : Option Str
  pub refresh_token : Option Str

unfoldable pub create_device_code : List DeviceCode → Str → Str → ℕ → Option (List DeviceCode)
create_device_code cs device_code user_code expires_at =
    if any (λ c. str_eq c.device_code device_code || str_eq c.user_code user_code) cs
    then none
    else some (
        record {
          device_code = device_code;
          user_code = user_code;
          expires_at = expires_at;
          approved_by = none;
          access_token = none;
          refresh_token = none;
        }
        ∷ cs)

unfoldable pub get_device_code : List DeviceCode → Str → Option DeviceCode
get_device_code [] code = none
get_device_code (c ∷ cs) code =
    if str_eq c.device_code code then some c else get_device_code cs code

unfoldable pub get_device_code_by_user_code : List DeviceCode → Str → Option DeviceCode
get_device_code_by_user_code [] code = none
get_device_code_by_user_code (c ∷ cs) code =
    if str_eq c.user_code code then some c else get_device_code_by_user_code cs code

abbrev pub is_pending : DeviceCode → Bool
is_pending c = elim c.approved_by [ none ↦ true | some u ↦ false ]

abbrev pub approved_row : Str → Str → Str → Str → DeviceCode → DeviceCode
approved_row user_code user_id access refresh c =
    if str_eq c.user_code user_code && is_pending c
    then record c {
      approved_by = some user_id;
      access_token = some access;
      refresh_token = some refresh;
    }
    else c

-- The rows, and whether some row was changed.
unfoldable pub approve_device_code :
    List DeviceCode → Str → Str → Str → Str → List DeviceCode × Bool
approve_device_code cs user_code user_id access refresh = (
  map (approved_row user_code user_id access refresh) cs,
  any (λ c. str_eq c.user_code user_code && is_pending c) cs,
)

unfoldable pub delete_device_code : List DeviceCode → Str → List DeviceCode
delete_device_code cs code = filter (λ c. not (str_eq c.device_code code)) cs

unfoldable pub cleanup_expired_device_codes : List DeviceCode → ℕ → List DeviceCode
cleanup_expired_device_codes cs now = filter (λ c. not (ltb c.expires_at now)) cs

-- No row has the device code.
abbrev pub Absent : List DeviceCode → Str → Type 0
Absent cs code = get_device_code cs code ≡ none

filter-Absent :
    (p : DeviceCode → Bool) (cs : List DeviceCode) (code : Str)
    → Absent cs code
    → Absent (filter p cs) code
unfolding get_device_code
filter-Absent p [] code h = refl
filter-Absent p (c ∷ cs) code h = elim (Bool-cases (str_eq c.device_code code)) [
  | inl e ↦ absurd (some_ne (rw e at h))
  | inr e ↦ elim (Bool-cases (p c)) [
    | inl q ↦ rw (q, e) (filter-Absent p cs code (rw e at h))
    | inr q ↦ rw q (filter-Absent p cs code (rw e at h))
  ]
]
  where
    some_ne : some c ≡ none → ⊥
    some_ne h = ground arith

pub cleanup-Absent :
    (cs : List DeviceCode) (now : ℕ) (code : Str)
    → Absent cs code
    → Absent (cleanup_expired_device_codes cs now) code
unfolding cleanup_expired_device_codes
cleanup-Absent cs now code h = filter-Absent (λ c. not (ltb c.expires_at now)) cs code h

pub delete-Absent :
    (cs : List DeviceCode) (other code : Str)
    → Absent cs code
    → Absent (delete_device_code cs other) code
unfolding delete_device_code
delete-Absent cs other code h = filter-Absent (λ c. not (str_eq c.device_code other)) cs code h

pub deleted-Absent : (cs : List DeviceCode) (code : Str) → Absent (delete_device_code cs code) code
unfolding get_device_code delete_device_code
deleted-Absent [] code = refl
deleted-Absent (c ∷ cs) code = elim (Bool-cases (str_eq c.device_code code)) [
  | inl e ↦ rw e (deleted-Absent cs code)
  | inr e ↦ rw (e, e) (deleted-Absent cs code)
]

pub approve-Absent :
    (cs : List DeviceCode) (user_code user_id access refresh code : Str)
    → Absent cs code
    → Absent (approve_device_code cs user_code user_id access refresh).0 code
unfolding get_device_code approve_device_code
approve-Absent [] user_code user_id access refresh code h = refl
approve-Absent (c ∷ cs) user_code user_id access refresh code h =
    elim (Bool-cases (str_eq c.device_code code)) [
      | inl e ↦ absurd (some_ne (rw e at h))
      | inr e ↦ elim (Bool-cases (str_eq c.user_code user_code && is_pending c)) [
        | inl q ↦ rw (q, e) (approve-Absent cs user_code user_id access refresh code (rw e at h))
        | inr q ↦ rw (q, e) (approve-Absent cs user_code user_id access refresh code (rw e at h))
      ]
    ]
  where
    some_ne : some c ≡ none → ⊥
    some_ne h = ground arith

abbrev pub or_same : List DeviceCode → Option (List DeviceCode) → List DeviceCode
or_same cs none = cs
or_same cs (some cs') = cs'

pub create-Absent :
    (cs : List DeviceCode) (other user_code : Str) (expires_at : ℕ) (code : Str)
    → str_eq other code ≡ false
    → Absent cs code
    → Absent (or_same cs (create_device_code cs other user_code expires_at)) code
unfolding get_device_code create_device_code
create-Absent cs other user_code expires_at code d h =
    elim (Bool-cases (any (λ c. str_eq c.device_code other || str_eq c.user_code user_code) cs)) [
      | inl e ↦ rw e h
      | inr e ↦ rw (e, d) h
    ]

get_device_code_by_user_code-user_code :
    (cs : List DeviceCode) (user_code : Str) (c : DeviceCode)
    → get_device_code_by_user_code cs user_code ≡ some c
    → str_eq c.user_code user_code ≡ true
unfolding get_device_code_by_user_code
get_device_code_by_user_code-user_code [] user_code c h = ground arith
get_device_code_by_user_code-user_code (x ∷ cs) user_code c h =
    elim (Bool-cases (str_eq x.user_code user_code)) [
      | inl e ↦ ap (λ r. str_eq r.user_code user_code) (sym (some_inj (rw e at h))) ∙ e
      | inr e ↦ get_device_code_by_user_code-user_code cs user_code c (rw e at h)
    ]
  where
    some_inj : some x ≡ some c → x ≡ c
    some_inj q = grind arith

abbrev map_row : (DeviceCode → DeviceCode) → Option DeviceCode → Option DeviceCode
map_row f none = none
map_row f (some c) = some (f c)

get_device_code_approved :
    (cs : List DeviceCode) (user_code user_id access refresh code : Str)
    → get_device_code (approve_device_code cs user_code user_id access refresh).0 code
      ≡ map_row (approved_row user_code user_id access refresh) (get_device_code cs code)
unfolding get_device_code approve_device_code
get_device_code_approved [] user_code user_id access refresh code = refl
get_device_code_approved (c ∷ cs) user_code user_id access refresh code =
    elim (Bool-cases (str_eq c.device_code code)) [
      | inl e ↦ elim (Bool-cases (str_eq c.user_code user_code && is_pending c)) [
        | inl q ↦ rw (q, e, q) refl
        | inr q ↦ rw (q, e, q) refl
      ]
      | inr e ↦ elim (Bool-cases (str_eq c.user_code user_code && is_pending c)) [
        | inl q ↦ rw (q, e) (get_device_code_approved cs user_code user_id access refresh code)
        | inr q ↦ rw (q, e) (get_device_code_approved cs user_code user_id access refresh code)
      ]
    ]

-- The row of a code that was pending, after an approval by its user code.
pub get_device_code-approve_device_code :
    (cs : List DeviceCode) (user_code user_id access refresh : Str) (c : DeviceCode)
    → get_device_code_by_user_code cs user_code ≡ some c
    → is_pending c ≡ true
    → get_device_code cs c.device_code ≡ some c
    → get_device_code (approve_device_code cs user_code user_id access refresh).0 c.device_code
      ≡ some (record c {
        approved_by = some user_id;
        access_token = some access;
        refresh_token = some refresh;
      })
get_device_code-approve_device_code cs user_code user_id access refresh c found pending key =
    get_device_code_approved cs user_code user_id access refresh c.device_code
    ∙ ap (map_row (approved_row user_code user_id access refresh)) key
    ∙ changed
  where
    changed :
        map_row (approved_row user_code user_id access refresh) (some c)
        ≡ some (record c {
          approved_by = some user_id;
          access_token = some access;
          refresh_token = some refresh;
        })
    changed = rw (get_device_code_by_user_code-user_code cs user_code c found, pending) refl

-- A deletion takes the rows of its code, and those of no other.
pub get_device_code-delete_device_code :
    (cs : List DeviceCode) (code other : Str)
    → get_device_code (delete_device_code cs code) other
      ≡ (if str_eq code other then none else get_device_code cs other)
unfolding get_device_code delete_device_code
get_device_code-delete_device_code [] code other = ground arith
get_device_code-delete_device_code (c ∷ cs) code other = ground (
  arith,
  str_eq_iff c.device_code code,
  str_eq_iff c.device_code other,
  str_eq_iff code other,
  get_device_code-delete_device_code cs code other,
)
