-- ===== src/Tests/Codec.antt =====
-- A keyspace in memory and codecs by length prefixes: they satisfy what the models ask of fjall, of
-- bincode and of the signing crate.
use mathlib.Core.Option.{some-injective}
use toki_sync.Prelude.{
  ℕ, zero, suc, ◌<◌, ◌≡◌, refl, ◌∙◌, ap, sym, subst, Bool, true, false, not, Option, none, some,
  List, [], ◌∷◌, ◌++◌, Str, str_eq, str_eq_iff, str_eq_refl, str_cmp, HashMap, IsMap, get, insert,
  remove, get-insert, get-remove, insert-IsMap, remove-IsMap, length, take, drop, filter, All,
  if◌then◌else◌, arith, ℤ, pos, negsuc, Bool-cases, inl, inr, All-imp, ltb,
}
use toki_sync.Windows.{WireWindow}
use toki_sync.Events.Bytes.{take-length, drop-length}
use toki_sync.Events.Store.{Fjall, Mem, here, there, is_prefix, is_lt, Bincode, PersistedEvent}
use toki_sync.Auth.Jwt.{Claims, Signer}

pub entries_sound : (m : HashMap Str) → IsMap m → All (λ kv. get m kv.0 ≡ some kv.1) m
unfolding get
entries_sound [] h = tt
entries_sound ((k, v) ∷ m) h = (
  rw (str_eq_refl k) refl,
  All-imp (λ kv e. ground (arith, str_eq_iff k kv.0)) m (entries_sound m h.1),
)

pub entries_complete : (m : HashMap Str) (k v : Str) → get m k ≡ some v → Mem (k, v) m
unfolding get
entries_complete [] k v h = absurd (ground arith)
entries_complete ((j, w) ∷ m) k v h = elim (Bool-cases (str_eq j k)) [
  | inl e ↦
      subst (λ x. Mem x ((j, w) ∷ m)) (same (ground (arith, str_eq_iff j k)) (ground arith)) here
  | inr e ↦ there (entries_complete m k v (ground arith))
]
  where
    same : j ≡ k → w ≡ v → ◌≡◌ {A = Str × Str} (j, w) (k, v)
    same p q = ap (λ x. (x, w)) p ∙ ap (λ x. (k, x)) q

abbrev pub memory : Fjall
memory = record {
  Keyspace = (m : HashMap Str) × IsMap m;
  get = λ ks k. get ks.0 k;
  insert = λ ks k v. (insert ks.0 k v, insert-IsMap ks.0 k v ks.1);
  remove = λ ks k. (remove ks.0 k, remove-IsMap ks.0 k ks.1);
  iter = λ ks. ks.0;
  prefix = λ ks p. filter (λ kv. is_prefix p kv.0) ks.0;
  range = λ ks start. filter (λ kv. not (is_lt (str_cmp kv.0 start))) ks.0;
  get-insert = λ ks k j v. get-insert ks.0 k j v;
  get-remove = λ ks k j. get-remove ks.0 k j;
  iter_sound = λ ks. entries_sound ks.0 ks.1;
  iter_complete = λ ks k v h. entries_complete ks.0 k v h;
  prefix_eq = λ ks p. refl;
  range_eq = λ ks start. refl;
}

-- Fields one after another, each after its length.
abbrev pub pack : List Str → Str
pack [] = []
pack (s ∷ ss) = length s ∷ (s ++ pack ss)

abbrev pub unpack : ℕ → Str → List Str
unpack zero bytes = []
unpack (suc n) [] = []
unpack (suc n) (l ∷ bytes) = take l bytes ∷ unpack n (drop l bytes)

pub unpack-pack : (ss : List Str) → unpack (length ss) (pack ss) ≡ ss
unpack-pack [] = refl
unpack-pack (s ∷ ss) =
    ap (λ x. x ∷ unpack (length ss) (drop (length s) (s ++ pack ss)))
      (take-length (length s) s (pack ss) refl)
    ∙ ap (λ x. s ∷ unpack (length ss) x) (drop-length (length s) s (pack ss) refl)
    ∙ ap (◌∷◌ s) (unpack-pack ss)

abbrev pub of_int : ℤ → Str
of_int (pos n) = 0 ∷ n ∷ []
of_int (negsuc n) = 1 ∷ n ∷ []

abbrev pub to_int : Str → ℤ
to_int (zero ∷ n ∷ []) = pos n
to_int (suc _ ∷ n ∷ []) = negsuc n
to_int _ = pos 0

pub to-of_int : (z : ℤ) → to_int (of_int z) ≡ z
to-of_int (pos n) = refl
to-of_int (negsuc n) = refl

abbrev pub to_num : Str → ℕ
to_num (n ∷ []) = n
to_num _ = 0

abbrev pub event_fields : PersistedEvent → List Str
event_fields e =
    e.device_id
    ∷ e.user_id
    ∷ e.msg_id
    ∷ of_int e.ts_ms
    ∷ e.provider
    ∷ e.model
    ∷ e.project
    ∷ (e.input_tokens ∷ [])
    ∷ (e.output_tokens ∷ [])
    ∷ (e.cache_creation_input_tokens ∷ [])
    ∷ (e.cache_read_input_tokens ∷ [])
    ∷ (e.usage_total ∷ [])
    ∷ []

abbrev pub event_of : List Str → Option PersistedEvent
event_of (a ∷ b ∷ c ∷ d ∷ e ∷ f ∷ g ∷ h ∷ i ∷ j ∷ k ∷ l ∷ []) = some record {
  device_id = a;
  user_id = b;
  msg_id = c;
  ts_ms = to_int d;
  provider = e;
  model = f;
  project = g;
  input_tokens = to_num h;
  output_tokens = to_num i;
  cache_creation_input_tokens = to_num j;
  cache_read_input_tokens = to_num k;
  usage_total = to_num l;
}
event_of _ = none

pub event_round : (e : PersistedEvent) → event_of (event_fields e) ≡ some e
event_round e = ap (λ z. some (record e { ts_ms = z })) (to-of_int e.ts_ms)

abbrev pub event_codec : Bincode PersistedEvent
event_codec = record {
  serialize = λ e. pack (event_fields e);
  deserialize = λ bytes. event_of (unpack 12 bytes);
  deserialize-serialize = λ e. ap event_of (unpack-pack (event_fields e)) ∙ event_round e;
}

abbrev pub of_flag : Bool → Str
of_flag true = 1 ∷ []
of_flag false = []

abbrev pub to_flag : Str → Bool
to_flag [] = false
to_flag (b ∷ bs) = true

pub to-of_flag : (b : Bool) → to_flag (of_flag b) ≡ b
to-of_flag true = refl
to-of_flag false = refl

abbrev pub window_fields : WireWindow → List Str
window_fields w =
    (w.window_kind ∷ [])
    ∷ w.limit_id
    ∷ w.account
    ∷ of_int w.window_end_ms
    ∷ of_int w.raw_resets_at_ms
    ∷ (w.window_minutes ∷ [])
    ∷ (w.peak_pct_x100 ∷ [])
    ∷ (w.last_pct_x100 ∷ [])
    ∷ of_int w.observed_ts_ms
    ∷ of_int w.first_seen_ms
    ∷ of_flag w.finalized
    ∷ of_flag w.maxed_out
    ∷ (w.limit_reached_kind ∷ [])
    ∷ of_int w.time_to_100_ms
    ∷ (w.active_ms ∷ [])
    ∷ of_int w.last_sample_gap_ms
    ∷ (w.sampled_active_fraction ∷ [])
    ∷ (w.n_samples ∷ [])
    ∷ w.plan
    ∷ []

abbrev pub window_of : List Str → Option WireWindow
window_of (a ∷ b ∷ c ∷ d ∷ e ∷ f ∷ g ∷ h ∷ i ∷ j ∷ k ∷ l ∷ m ∷ n ∷ o ∷ p ∷ q ∷ r ∷ s ∷ []) =
    some record {
      window_kind = to_num a;
      limit_id = b;
      account = c;
      window_end_ms = to_int d;
      raw_resets_at_ms = to_int e;
      window_minutes = to_num f;
      peak_pct_x100 = to_num g;
      last_pct_x100 = to_num h;
      observed_ts_ms = to_int i;
      first_seen_ms = to_int j;
      finalized = to_flag k;
      maxed_out = to_flag l;
      limit_reached_kind = to_num m;
      time_to_100_ms = to_int n;
      active_ms = to_num o;
      last_sample_gap_ms = to_int p;
      sampled_active_fraction = to_num q;
      n_samples = to_num r;
      plan = s;
    }
window_of _ = none

pub window_round : (w : WireWindow) → window_of (window_fields w) ≡ some w
window_round w =
    rw
      (
        to-of_int w.window_end_ms,
        to-of_int w.raw_resets_at_ms,
        to-of_int w.observed_ts_ms,
        to-of_int w.first_seen_ms,
        to-of_flag w.finalized,
        to-of_flag w.maxed_out,
        to-of_int w.time_to_100_ms,
        to-of_int w.last_sample_gap_ms,
      )
      refl

abbrev pub window_codec : Bincode WireWindow
window_codec = record {
  serialize = λ w. pack (window_fields w);
  deserialize = λ bytes. window_of (unpack 19 bytes);
  deserialize-serialize = λ w. ap window_of (unpack-pack (window_fields w)) ∙ window_round w;
}

abbrev pub option_field : Option Str → Str
option_field none = []
option_field (some s) = 1 ∷ s

abbrev pub field_option : Str → Option Str
field_option [] = none
field_option (b ∷ s) = some s

pub option_round : (o : Option Str) → field_option (option_field o) ≡ o
option_round none = refl
option_round (some s) = refl

abbrev pub claim_fields : Claims → List Str
claim_fields c =
    c.sub
    ∷ c.jti
    ∷ c.typ
    ∷ (c.exp ∷ [])
    ∷ (c.iat ∷ [])
    ∷ option_field c.iss
    ∷ option_field c.did
    ∷ []

abbrev pub claims_of : List Str → Option Claims
claims_of (a ∷ b ∷ c ∷ d ∷ e ∷ f ∷ g ∷ []) = some record {
  sub = a;
  jti = b;
  typ = c;
  exp = to_num d;
  iat = to_num e;
  iss = field_option f;
  did = field_option g;
}
claims_of _ = none

pub claims_round : (c : Claims) → claims_of (claim_fields c) ≡ some c
claims_round c =
    ap (λ o. some (record c { iss = o; did = field_option (option_field c.did) }))
      (option_round c.iss)
    ∙ ap (λ o. some (record c { did = o })) (option_round c.did)

abbrev pub until_expiry : ℕ → Option Claims → Option Claims
until_expiry now none = none
until_expiry now (some c) = if ltb now c.exp then some c else none

pub until_read :
    (now : ℕ) (o : Option Claims) (c : Claims) → until_expiry now o ≡ some c → o ≡ some c
until_read now none c h = absurd (ground arith)
until_read now (some x) c h = ground arith

pub claims_back : (c : Claims) → claims_of (unpack 7 (pack (claim_fields c))) ≡ some c
claims_back c = ap claims_of (unpack-pack (claim_fields c)) ∙ claims_round c

abbrev pub plain_signer : Signer
plain_signer = record {
  encode = λ c. some (pack (claim_fields c));
  decode = λ now token. until_expiry now (claims_of (unpack 7 token));
  decode-encode = λ c token now h before. read_back c token now h before;
  decode_once = λ token now later c c' h k. same_claims token now later c c' h k;
}
  where
    read_back :
        (c : Claims) (token : Str) (now : ℕ)
        → some (pack (claim_fields c)) ≡ some token
        → now < c.exp
        → until_expiry now (claims_of (unpack 7 token)) ≡ some c
    read_back c token now h before =
        subst (λ t. until_expiry now (claims_of (unpack 7 t)) ≡ some c) (some-injective _ _ h)
          (ap (until_expiry now) (claims_back c) ∙ ground arith)

    same_claims :
        (token : Str) (now later : ℕ) (c c' : Claims)
        → until_expiry now (claims_of (unpack 7 token)) ≡ some c
        → until_expiry later (claims_of (unpack 7 token)) ≡ some c'
        → c ≡ c'
    same_claims token now later c c' h k = some-injective _ _ (
        sym (until_read now (claims_of (unpack 7 token)) c h)
        ∙ until_read later (claims_of (unpack 7 token)) c' k)
