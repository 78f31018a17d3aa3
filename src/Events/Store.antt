-- ===== src/Events/Store.antt =====
-- `FjallEventStore` of src/events/fjall_store.rs. The keyspaces belong to the fjall crate and the
-- values to bincode: both are parameters, with what the store relies on. Storage errors are not
-- modelled. A batch is the list of its writes, which a commit carries out in order.
use toki_sync.Prelude.{
  ℕ, ◌≡◌, refl, ◌∙◌, ap, Bool, true, false, ◌&&◌, Option, none, some, List, [], ◌∷◌, ◌++◌, Str,
  str_eq, filter, All, not, Ordering, str_cmp, if◌then◌else◌, ℤ,
}
use Prim.Native.Nat.{lt, eq, gt}
use toki_sync.Events.{ServerEvent}
use toki_sync.Events.Bytes.{to_be_bytes}

abbrev pub is_prefix : Str → Str → Bool
is_prefix [] k = true
is_prefix (a ∷ p) [] = false
is_prefix (a ∷ p) (b ∷ k) = str_eq (a ∷ []) (b ∷ []) && is_prefix p k

abbrev pub is_lt : Ordering → Bool
is_lt lt = true
is_lt eq = false
is_lt gt = false

pub data Mem {ℓ} {A : Type ℓ} (x : A) : List A → Type ℓ where
  here : {xs : List A} → Mem x (x ∷ xs)
  there : {y : A} {xs : List A} → Mem x xs → Mem x (y ∷ xs)

-- A keyspace of fjall: a map from keys to values that can be listed.
pub record Fjall : Type 1 where
  pub Keyspace : Type 0
  pub get : Keyspace → Str → Option Str
  pub insert : Keyspace → Str → Str → Keyspace
  pub remove : Keyspace → Str → Keyspace
  pub iter : Keyspace → List (Str × Str)
  pub prefix : Keyspace → Str → List (Str × Str)
  pub range : Keyspace → Str → List (Str × Str)
  pub get-insert :
      (ks : Keyspace) (k j v : Str)
      → get (insert ks k v) j ≡ (if str_eq k j then some v else get ks j)
  pub get-remove :
      (ks : Keyspace) (k j : Str) → get (remove ks k) j ≡ (if str_eq k j then none else get ks j)
  pub iter_sound : (ks : Keyspace) → All (λ kv. get ks kv.0 ≡ some kv.1) (iter ks)
  pub iter_complete : (ks : Keyspace) (k v : Str) → get ks k ≡ some v → Mem (k, v) (iter ks)
  pub prefix_eq :
      (ks : Keyspace) (p : Str) → prefix ks p ≡ filter (λ kv. is_prefix p kv.0) (iter ks)
  -- `range(start..)`
  pub range_eq :
      (ks : Keyspace) (start : Str)
      → range ks start ≡ filter (λ kv. not (is_lt (str_cmp kv.0 start))) (iter ks)

-- The values that are stored: an event without its session.
pub record PersistedEvent : Type 0 where
  pub device_id : Str
  pub user_id : Str
  pub msg_id : Str
  pub ts_ms : ℤ
  pub provider : Str
  pub model : Str
  pub project : Str
  pub input_tokens : ℕ
  pub output_tokens : ℕ
  pub cache_creation_input_tokens : ℕ
  pub cache_read_input_tokens : ℕ
  pub usage_total : ℕ

-- `bincode::serialize` and `bincode::deserialize` at one type.
pub record Bincode (A : Type 0) : Type 0 where
  pub serialize : A → Str
  pub deserialize : Str → Option A
  pub deserialize-serialize : (a : A) → deserialize (serialize a) ≡ some a

unfoldable pub persisted : ServerEvent → PersistedEvent
persisted e = record {
  device_id = e.device_id;
  user_id = e.user_id;
  msg_id = e.msg_id;
  ts_ms = e.ts_ms;
  provider = e.provider;
  model = e.model;
  project = e.project;
  input_tokens = e.input_tokens;
  output_tokens = e.output_tokens;
  cache_creation_input_tokens = e.cache_creation_input_tokens;
  cache_read_input_tokens = e.cache_read_input_tokens;
  usage_total = e.usage_total;
}

unfoldable pub restored : PersistedEvent → ServerEvent
restored e = record {
  device_id = e.device_id;
  user_id = e.user_id;
  msg_id = e.msg_id;
  ts_ms = e.ts_ms;
  provider = e.provider;
  model = e.model;
  project = e.project;
  session = [];
  input_tokens = e.input_tokens;
  output_tokens = e.output_tokens;
  cache_creation_input_tokens = e.cache_creation_input_tokens;
  cache_read_input_tokens = e.cache_read_input_tokens;
  usage_total = e.usage_total;
}

abbrev pub restore : Option PersistedEvent → Option ServerEvent
restore none = none
restore (some e) = some (restored e)

module _ (codec : Bincode PersistedEvent) where
  unfoldable pub encode_event : ServerEvent → Str
  encode_event e = codec.serialize (persisted e)

  unfoldable pub decode_event : Str → Option ServerEvent
  decode_event bytes = restore (codec.deserialize bytes)

  -- An event reads back as it was written, without its session.
  pub decode-encode_event :
      (e : ServerEvent) → decode_event (encode_event e) ≡ some (record e { session = [] })
  unfolding decode_event encode_event restored persisted
  decode-encode_event e = rw (codec.deserialize-serialize (persisted e))

-- `[device_id\0provider\0msg_id]`
unfoldable pub idx_key : Str → Str → Str → Str
idx_key device_id provider msg_id = device_id ++ 0 ∷ (provider ++ 0 ∷ msg_id)

-- `[ts_ms (8 BE)][device_id\0provider\0msg_id]`
unfoldable pub event_key : ℤ → Str → Str → Str → Str
event_key ts_ms device_id provider msg_id =
    to_be_bytes ts_ms ++ (device_id ++ 0 ∷ (provider ++ 0 ∷ msg_id))

-- `[user_id\0][event_key]`
unfoldable pub user_idx_key : Str → Str → Str
user_idx_key user_id key = user_id ++ 0 ∷ key

abbrev pub idx_key_of : ServerEvent → Str
idx_key_of e = idx_key e.device_id e.provider e.msg_id

abbrev pub event_key_of : ServerEvent → Str
event_key_of e = event_key e.ts_ms e.device_id e.provider e.msg_id

pub data Target : Type 0 where
  events idx_msg idx_user sessions : Target

abbrev pub same : Target → Target → Bool
same events events = true
same idx_msg idx_msg = true
same idx_user idx_user = true
same sessions sessions = true
same _ _ = false

pub data Write : Type 0 where
  put : Target → Str → Str → Write
  del : Target → Str → Write

module _ (F : Fjall) where
  pub record Store : Type 0 where
    pub events_ks : F.Keyspace
    pub idx_msg_ks : F.Keyspace
    pub idx_user_ks : F.Keyspace
    pub sessions_ks : F.Keyspace

  abbrev pub keyspace : Store → Target → F.Keyspace
  keyspace st events = st.events_ks
  keyspace st idx_msg = st.idx_msg_ks
  keyspace st idx_user = st.idx_user_ks
  keyspace st sessions = st.sessions_ks

  abbrev pub with_keyspace : Store → Target → F.Keyspace → Store
  with_keyspace st events ks = record st { events_ks = ks }
  with_keyspace st idx_msg ks = record st { idx_msg_ks = ks }
  with_keyspace st idx_user ks = record st { idx_user_ks = ks }
  with_keyspace st sessions ks = record st { sessions_ks = ks }

  abbrev pub read : Store → Target → Str → Option Str
  read st t k = F.get (keyspace st t) k

  abbrev pub write : Store → Write → Store
  write st (put t k v) = with_keyspace st t (F.insert (keyspace st t) k v)
  write st (del t k) = with_keyspace st t (F.remove (keyspace st t) k)

  abbrev pub commit : Store → List Write → Store
  commit st [] = st
  commit st (w ∷ ws) = commit (write st w) ws

  -- What a write makes of the value at a key.
  abbrev pub effect : Write → Target → Str → Option Str → Option Str
  effect (put u k v) t j o = if same u t && str_eq k j then some v else o
  effect (del u k) t j o = if same u t && str_eq k j then none else o

  abbrev pub effects : List Write → Target → Str → Option Str → Option Str
  effects [] t j o = o
  effects (w ∷ ws) t j o = effects ws t j (effect w t j o)

  read_put :
      (st : Store) (k v j : Str) (u t : Target)
      → read (with_keyspace st u (F.insert (keyspace st u) k v)) t j
        ≡ (if same u t && str_eq k j then some v else read st t j)
  read_put st k v j events events = F.get-insert st.events_ks k j v
  read_put st k v j idx_msg idx_msg = F.get-insert st.idx_msg_ks k j v
  read_put st k v j idx_user idx_user = F.get-insert st.idx_user_ks k j v
  read_put st k v j sessions sessions = F.get-insert st.sessions_ks k j v
  read_put st k v j _ _ = refl

  read_del :
      (st : Store) (k j : Str) (u t : Target)
      → read (with_keyspace st u (F.remove (keyspace st u) k)) t j
        ≡ (if same u t && str_eq k j then none else read st t j)
  read_del st k j events events = F.get-remove st.events_ks k j
  read_del st k j idx_msg idx_msg = F.get-remove st.idx_msg_ks k j
  read_del st k j idx_user idx_user = F.get-remove st.idx_user_ks k j
  read_del st k j sessions sessions = F.get-remove st.sessions_ks k j
  read_del st k j _ _ = refl

  read-write :
      (st : Store) (w : Write) (t : Target) (j : Str)
      → read (write st w) t j ≡ effect w t j (read st t j)
  read-write st (put u k v) t j = read_put st k v j u t
  read-write st (del u k) t j = read_del st k j u t

  -- A committed batch acts on each key by its writes in order.
  pub read-commit :
      (ws : List Write) (st : Store) (t : Target) (j : Str)
      → read (commit st ws) t j ≡ effects ws t j (read st t j)
  read-commit [] st t j = refl
  read-commit (w ∷ ws) st t j =
      read-commit ws (write st w) t j ∙ ap (effects ws t j) (read-write st w t j)
