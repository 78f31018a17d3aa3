-- ===== src/Db/Devices.antt =====
-- The `devices` table of src/db/sqlite.rs, and `find_or_create_device` of src/sync/handler.rs. The id is
-- the primary key, and a unique index stands on the device key.
use toki_sync.Prelude.{
  ℕ, ◌-◌, ◌==◌, ◌≡◌, ◌≢◌, refl, sym, ap, subst, ◌∙◌, Bool, true, false, ◌&&◌, ◌||◌, Option, none,
  some, List, [], ◌∷◌, map, Str, length, leb, ltb, str_eq, str_eq_iff, str_eq_refl, any,
  if◌then◌else◌, arith, Bool-cases, inl, inr,
}

pub record Device : Type 0 where
  pub id : Str
  pub user_id : Str
  pub name : Str
  pub device_key : Str
  pub created_at : ℕ
  pub last_seen_at : ℕ

unfoldable pub find_device_by_key_and_user : List Device → Str → Str → Option Str
find_device_by_key_and_user [] device_key user_id = none
find_device_by_key_and_user (d ∷ ds) device_key user_id =
    if str_eq d.device_key device_key && str_eq d.user_id user_id
    then some d.id
    else find_device_by_key_and_user ds device_key user_id

abbrev pub seen : Str → Str → ℕ → Device → Device
seen id name now d = if str_eq d.id id then record d { last_seen_at = now; name = name } else d

unfoldable pub update_device_seen : List Device → Str → Str → ℕ → List Device
update_device_seen ds id name now = map (seen id name now) ds

-- A second row with the id or the key is refused.
unfoldable pub create_device : List Device → Str → Str → Str → Str → ℕ → Option (List Device)
create_device ds id user_id name device_key now =
    if any (λ d. str_eq d.id id || str_eq d.device_key device_key) ds
    then none
    else some (
        record {
          id = id;
          user_id = user_id;
          name = name;
          device_key = device_key;
          created_at = now;
          last_seen_at = now;
        }
        ∷ ds)

-- `truncate_device_name` of src/server/http.rs: 64 characters of a longer name. A byte that does not
-- continue a character starts one.
abbrev pub starts_char : ℕ → Bool
starts_char b = ltb b 128 || leb 192 b

unfoldable pub take_chars : ℕ → Str → Str
take_chars n [] = []
take_chars n (b ∷ bs) =
    let rest = take_chars (if starts_char b then n - 1 else n) bs in
    if starts_char b && n == 0 then [] else b ∷ rest

unfoldable pub truncate_device_name : Str → Str
truncate_device_name name = if leb (length name) 64 then name else take_chars 64 name

abbrev pub created : Str → Option (List Device) → Option (List Device × Str)
created device_key none = none
created device_key (some ds) = some (ds, device_key)

abbrev pub found_or_created :
    List Device → Str → Str → Str → ℕ → Option Str → Option (List Device × Str)
found_or_created ds user_id name device_key now (some id) =
    some (update_device_seen ds id name now, id)
found_or_created ds user_id name device_key now none =
    created device_key (create_device ds device_key user_id name device_key now)

-- The device key is the id of a new device.
unfoldable pub find_or_create_device :
    List Device → Str → Str → Str → ℕ → Option (List Device × Str)
find_or_create_device ds user_id name device_key now =
    found_or_created ds user_id name device_key now
      (find_device_by_key_and_user ds device_key user_id)

-- The user whom a device belongs to.
unfoldable pub owner : List Device → Str → Option Str
owner [] id = none
owner (d ∷ ds) id = if str_eq d.id id then some d.user_id else owner ds id

-- No id stands twice.
abbrev pub IsTable : List Device → Type 0
IsTable [] = Unit
IsTable (d ∷ ds) = (owner ds d.id ≡ none) × IsTable ds

owner_seen :
    (ds : List Device) (id name : Str) (now : ℕ) (j : Str)
    → owner (update_device_seen ds id name now) j ≡ owner ds j
unfolding owner update_device_seen
owner_seen [] id name now j = refl
owner_seen (d ∷ ds) id name now j = elim (Bool-cases (str_eq d.id id)) [
  | inl e ↦ rw (e, owner_seen ds id name now j) refl
  | inr e ↦ rw (e, owner_seen ds id name now j) refl
]

-- The row that is found is the first with its id, since no id stands twice.
found_owner :
    (ds : List Device) (key user id : Str)
    → IsTable ds
    → find_device_by_key_and_user ds key user ≡ some id
    → owner ds id ≡ some user
unfolding find_device_by_key_and_user owner
found_owner [] key user id t h = absurd (ground arith)
found_owner (d ∷ ds) key user id t h =
    elim (Bool-cases (str_eq d.device_key key && str_eq d.user_id user)) [
      | inl e ↦
          let same : some d.id ≡ some id = rw e at h in
          let mine : d.user_id ≡ user = (str_eq_iff d.user_id user).0 (ground arith) in
          let self : str_eq d.id id ≡ true = (str_eq_iff d.id id).1 (ground arith) in
          rw (self, mine) refl
      | inr e ↦
          let later = found_owner ds key user id t.1 (rw e at h) in
          elim (Bool-cases (str_eq d.id id)) [
            | inl q ↦
                absurd (some_ne (sym later ∙ ap (owner ds) (sym ((str_eq_iff d.id id).0 q)) ∙ t.0))
            | inr q ↦ rw q later
          ]
    ]
  where
    some_ne : {u : Str} → ◌≢◌ {A = Option Str} (some u) none
    some_ne h = absurd (ground arith)

abbrev clashes : Str → Str → Device → Bool
clashes id key d = str_eq d.id id || str_eq d.device_key key

no_clash : (ds : List Device) (id key : Str) → any (clashes id key) ds ≡ false → owner ds id ≡ none
unfolding owner
no_clash [] id key h = refl
no_clash (d ∷ ds) id key h = elim (Bool-cases (clashes id key d)) [
  | inl e ↦ absurd (ground arith)
  | inr e ↦
      let apart : str_eq d.id id ≡ false = ground arith in rw apart (no_clash ds id key (rw e at h))
]

-- A connection's device: it is the user's own, and every device that had an owner keeps it.
abbrev pub Adopted : List Device → List Device → Str → Str → Type 0
Adopted ds ds' user id =
    (owner ds' id ≡ some user)
    × ((j u : Str) → owner ds j ≡ some u → owner ds' j ≡ some u)
    × IsTable ds'

seen-IsTable :
    (ds : List Device) (id name : Str) (now : ℕ)
    → IsTable ds
    → IsTable (update_device_seen ds id name now)
unfolding update_device_seen
seen-IsTable [] id name now t = tt
seen-IsTable (d ∷ ds) id name now t = elim (Bool-cases (str_eq d.id id)) [
  | inl e ↦ rw e (owner_seen ds id name now d.id ∙ t.0, seen-IsTable ds id name now t.1)
  | inr e ↦ rw e (owner_seen ds id name now d.id ∙ t.0, seen-IsTable ds id name now t.1)
]

pub created-Adopted :
    (ds ds' : List Device) (user name key id : Str) (now : ℕ)
    → IsTable ds
    → created key (create_device ds key user name key now) ≡ some (ds', id)
    → Adopted ds ds' user id
unfolding create_device owner
created-Adopted ds ds' user name key id now t h = elim (Bool-cases (any (clashes key key) ds)) [
  | inl e ↦ absurd (none_ne (rw e at h))
  | inr e ↦
      subst (λ r. Adopted ds r.0 user r.1) (some_eq (rw e at h))
        (
          rw (str_eq_refl key) refl,
          (λ j u o. kept j u o (no_clash ds key key e)),
          (no_clash ds key key e, t),
        )
]
  where
    none_ne : ◌≢◌ {A = Option (List Device × Str)} none (some (ds', id))
    none_ne h = absurd (ground arith)

    some_eq : {r : List Device × Str} → some r ≡ some (ds', id) → r ≡ (ds', id)
    some_eq h = ground arith

    clash : (j u : Str) → owner ds j ≡ some u → owner ds key ≡ none → str_eq key j ≡ true → ⊥
    clash j u o n q = ground (arith, ap (owner ds) ((str_eq_iff key j).0 q))

    kept :
        (j u : Str)
        → owner ds j ≡ some u
        → owner ds key ≡ none
        → (if str_eq key j then some user else owner ds j) ≡ some u
    kept j u o n = elim (Bool-cases (str_eq key j)) [
      | inl q ↦ absurd (clash j u o n q)
      | inr q ↦ rw q o
    ]

-- The device that a connection is given is the user's own, and no other device changes hands: each one
-- that had an owner keeps it, and no id stands twice.
pub find_or_create_device-Adopted :
    (ds ds' : List Device) (user name key id : Str) (now : ℕ)
    → IsTable ds
    → find_or_create_device ds user name key now ≡ some (ds', id)
    → Adopted ds ds' user id
unfolding find_or_create_device
find_or_create_device-Adopted ds ds' user name key id now t h =
    by_row (find_device_by_key_and_user ds key user) refl h
  where
    same_pair :
        {a b : List Device} {i j : Str}
        → ◌≡◌ {A = Option (List Device × Str)} (some (a, i)) (some (b, j))
        → ◌≡◌ {A = List Device × Str} (a, i) (b, j)
    same_pair h = ground arith

    by_row :
        (o : Option Str)
        → find_device_by_key_and_user ds key user ≡ o
        → found_or_created ds user name key now o ≡ some (ds', id)
        → Adopted ds ds' user id
    by_row none e h = created-Adopted ds ds' user name key id now t h
    by_row (some i) e h =
        subst (λ r. Adopted ds r.0 user r.1) (same_pair h)
          (
            owner_seen ds i name now i ∙ found_owner ds key user i t e,
            (λ j u o. owner_seen ds i name now j ∙ o),
            seen-IsTable ds i name now t,
          )
