-- ===== src/Query/Aggregate.antt =====
-- The accumulation of `aggregate_events_to_toki_json` in src/server/handlers/metrics.rs. `f64` is an
-- abstract type with its sum; the price of a model is what `PricingTable::get` finds.
use Prim.Native.Nat.Ordering.{lt, eq, gt}
use toki_sync.Prelude.{
  ℕ, ◌+◌, ◌-◌, ◌*◌, ◌^◌, Bool, true, false, ◌&&◌, ◌||◌, not, Option, none, some, List, [], ◌∷◌, Str,
  lit, str_eq, str_cmp, is_empty, length, leb, min, if◌then◌else◌, ℤ, pos, ltb_ℤ, leb_ℤ, cmp_ℤ,
  ◌+ℤ◌, ◌*ℤ◌, Ordering,
}
use toki_sync.Prelude.Order.{lex}
use toki_sync.Events.{ServerEvent}
use toki_sync.Query.Times.{Zone}
use toki_sync.Query.Buckets.{bucket_start_sec}

abbrev pub u64_max : ℕ
u64_max = 2 ^ 64 - 1

-- `u64::saturating_add`
abbrev pub saturating_add : ℕ → ℕ → ℕ
saturating_add a b = min (a + b) u64_max

pub data GroupBy : Type 0 where
  by_model by_project by_device_id : GroupBy

abbrev pub group_key : GroupBy → ServerEvent → Str
group_key by_model e = e.model
group_key by_project e = e.project
group_key by_device_id e = e.device_id

unfoldable pub group_by_of : Str → GroupBy
group_by_of s =
    if str_eq s (lit "project")
    then by_project
    else if str_eq s (lit "device_id")
    then by_device_id
    else by_model

-- An event without a provider counts as one of `claude_code`.
abbrev pub provider_key : ServerEvent → Str
provider_key e = if is_empty e.provider then lit "claude_code" else e.provider

-- The bucket's start, its provider and its group.
abbrev pub Key : Type 0
Key = ℤ × (Str × Str)

unfoldable pub key_cmp : Key → Key → Ordering
key_cmp = lex cmp_ℤ (lex str_cmp str_cmp)

abbrev pub same_key : Key → Key → Bool
same_key a b = elim (key_cmp a b) [ eq ↦ true | lt ↦ false | gt ↦ false ]

abbrev pub max_bucket_entries : ℕ
max_bucket_entries = 50000

pub record Float : Type 1 where
  pub Carrier : Type 0
  pub zero : Carrier
  pub add : Carrier → Carrier → Carrier

module _ (R : Float) where
  -- `ModelPricing::cost` of input, output, cache creation and cache read.
  abbrev pub Price : Type 0
  Price = ℕ → ℕ → ℕ → ℕ → R.Carrier

  unfoldable pub event_cost_for_provider : Price → ServerEvent → Str → R.Carrier
  event_cost_for_provider price e provider =
      if str_eq provider (lit "codex")
      then price (e.input_tokens - e.cache_read_input_tokens) e.output_tokens 0
          e.cache_read_input_tokens
      else price e.input_tokens e.output_tokens e.cache_creation_input_tokens
          e.cache_read_input_tokens

  pub record ModelBucket : Type 0 where
    pub input : ℕ
    pub output : ℕ
    pub cache_create : ℕ
    pub cache_read : ℕ
    pub usage_total : ℕ
    pub events : ℕ
    pub cost_usd : Option R.Carrier
    pub provider : Str

  -- `ModelBucket::default`
  abbrev pub new_bucket : ModelBucket
  new_bucket = record {
    input = 0;
    output = 0;
    cache_create = 0;
    cache_read = 0;
    usage_total = 0;
    events = 0;
    cost_usd = none;
    provider = [];
  }

  abbrev pub or_zero : Option R.Carrier → R.Carrier
  or_zero none = R.zero
  or_zero (some c) = c

  abbrev pub add_cost : Option R.Carrier → ServerEvent → Option Price → Option R.Carrier
  add_cost c e none = c
  add_cost c e (some price) =
      some (R.add (or_zero c) (event_cost_for_provider price e (provider_key e)))

  abbrev pub note_provider : ModelBucket → ServerEvent → ModelBucket
  note_provider b e =
      if is_empty b.provider && not (is_empty e.provider)
      then record b { provider = e.provider }
      else b

  -- What one event adds to its bucket.
  unfoldable pub accumulate :
      Bool → Bool → (Str → Option Price) → ModelBucket → ServerEvent → ModelBucket
  accumulate is_events include_cost pricing b₀ e =
      let b = note_provider b₀ e in
      if is_events then record b { events = saturating_add b.events 1 } else record b {
        input = saturating_add b.input e.input_tokens;
        output = saturating_add b.output e.output_tokens;
        cache_create = saturating_add b.cache_create e.cache_creation_input_tokens;
        cache_read = saturating_add b.cache_read e.cache_read_input_tokens;
        usage_total = saturating_add b.usage_total e.usage_total;
        events = saturating_add b.events 1;
        cost_usd = if include_cost then add_cost b.cost_usd e (pricing e.model) else b.cost_usd;
      }

  -- `BTreeMap`, in the order of its keys.
  abbrev pub Buckets : Type 0
  Buckets = List (Key × ModelBucket)

  unfoldable pub find : Buckets → Key → Option ModelBucket
  find [] k = none
  find ((j, b) ∷ bs) k = let rest = find bs k in if same_key j k then some b else rest

  abbrev pub put_at : Ordering → Key × ModelBucket → Buckets → Key → ModelBucket → Buckets → Buckets
  put_at eq entry bs k v rest = (k, v) ∷ bs
  put_at lt entry bs k v rest = entry ∷ rest
  put_at gt entry bs k v rest = (k, v) ∷ (entry ∷ bs)

  unfoldable pub put : Buckets → Key → ModelBucket → Buckets
  put [] k v = (k, v) ∷ []
  put ((j, b) ∷ bs) k v = put_at (key_cmp j k) (j, b) bs k v (put bs k v)

  pub record Request : Type 0 where
    pub step_secs : ℕ
    pub since_ms : ℤ
    pub until_ms : ℤ
    pub is_events : Bool
    pub group_dim : GroupBy
    pub provider_filter : Option Str
    pub pricing : Str → Option Price
    pub tz : Option Zone
    pub start_of_week : ℕ
    pub include_cost : Bool

  pub record Totals : Type 0 where
    pub buckets : Buckets
    pub truncated : Bool

  abbrev pub wants : Option Str → Str → Bool
  wants none provider = true
  wants (some want) provider = str_eq want provider

  abbrev pub bucket_of : Request → ServerEvent → ℤ
  bucket_of r e = bucket_start_sec e.ts_ms r.step_secs r.tz r.start_of_week

  abbrev pub key_of : Request → ServerEvent → Key
  key_of r e = (bucket_of r e, (provider_key e, group_key r.group_dim e))

  -- The checks of range, of overlap and of the provider.
  unfoldable pub is_selected : Request → ServerEvent → Bool
  is_selected r e =
      let bucket_ms = bucket_of r e *ℤ pos 1000 in
      let step_ms = pos (r.step_secs * 1000) in
      not (ltb_ℤ e.ts_ms r.since_ms || leb_ℤ r.until_ms e.ts_ms)
      && not (leb_ℤ (bucket_ms +ℤ step_ms) r.since_ms || leb_ℤ r.until_ms bucket_ms)
      && wants r.provider_filter (provider_key e)

  abbrev pub add_to : Request → Totals → ServerEvent → Option ModelBucket → Totals
  add_to r t e (some b) = record t {
    buckets = put t.buckets (key_of r e) (accumulate r.is_events r.include_cost r.pricing b e);
  }
  add_to r t e none =
      if leb max_bucket_entries (length t.buckets)
      then record t { truncated = true }
      else record t {
        buckets =
            put t.buckets (key_of r e)
              (accumulate r.is_events r.include_cost r.pricing new_bucket e);
      }

  unfoldable pub add_event : Request → Totals → ServerEvent → Totals
  add_event r t e = if is_selected r e then add_to r t e (find t.buckets (key_of r e)) else t

  unfoldable pub aggregate_from : Request → Totals → List ServerEvent → Totals
  aggregate_from r t [] = t
  aggregate_from r t (e ∷ es) = aggregate_from r (add_event r t e) es

  unfoldable pub aggregate_events : Request → List ServerEvent → Totals
  aggregate_events r es = aggregate_from r (record { buckets = []; truncated = false }) es
