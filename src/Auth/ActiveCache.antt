-- ===== src/Auth/ActiveCache.antt =====
-- `ActiveCacheInner` and `is_user_active_cached` of src/server/http.rs. Each method holds the lock of the
-- map, so that calls of several tasks are a sequence of steps.
use toki_sync.Prelude.{
  ℕ, suc, ◌+◌, ◌-◌, ◌%◌, ◌^◌, ◌≤◌, ◌<◌, ◌≡◌, refl, ap, ◌∙◌, Bool, true, false, Option, none, some,
  List, [], ◌∷◌, Str, HashMap, get, insert, remove, retain, IsMap, get-insert, get-remove,
  get-retain, insert-IsMap, remove-IsMap, retain-IsMap, str_eq, str_eq_refl, ltb, ◌==◌,
  if◌then◌else◌, arith, Bool-cases, inl, inr, All,
}
use toki_sync.Limits.{from_secs}

-- `active`, and when it was checked.
abbrev pub Entry : Type 0
Entry = Bool × ℕ

pub record ActiveCache : Type 0 where
  pub map : HashMap Entry
  pub generation : ℕ

abbrev pub active_cache_ttl : ℕ
active_cache_ttl = from_secs 60

abbrev pub is_fresh : ℕ → Entry → Bool
is_fresh now e = ltb (now - e.1) active_cache_ttl

abbrev pub fresh_value : ℕ → Option Entry → Option Bool
fresh_value now none = none
fresh_value now (some e) = if is_fresh now e then some e.0 else none

unfoldable pub get_fresh : ActiveCache → Str → ℕ → Option Bool
get_fresh c user_id now = fresh_value now (get c.map user_id)

-- `now` is the clock at the sweep and at the insertion.
unfoldable pub insert_if_current : ActiveCache → Str → Bool → ℕ → ℕ → ActiveCache
insert_if_current c user_id active gen_at_read now =
    let swept = retain (is_fresh now) c.map in
    record c {
      map = if c.generation == gen_at_read then insert swept user_id (active, now) else swept;
    }

-- `fetch_add` wraps around.
unfoldable pub evict : ActiveCache → Str → ActiveCache
evict c user_id = record { map = remove c.map user_id; generation = (c.generation + 1) % 2 ^ 64 }

-- What the database says of a user: `none` when it fails, and a deleted user is not active.
abbrev pub or_deleted : Option Bool → Bool
or_deleted none = false
or_deleted (some active) = active

abbrev pub cache_read : ActiveCache → Str → ℕ → Option (Option Bool) → ActiveCache × Option Bool
cache_read c user_id now none = (c, none)
cache_read c user_id now (some user) =
    (insert_if_current c user_id (or_deleted user) c.generation now, some (or_deleted user))

abbrev pub fresh_or_read :
    ActiveCache → Str → ℕ → Option (Option Bool) → Option Bool → ActiveCache × Option Bool
fresh_or_read c user_id now user (some active) = (c, some active)
fresh_or_read c user_id now user none = cache_read c user_id now user

-- One call that no other interrupts; `get_user_by_id` is asked only on a miss.
unfoldable pub is_user_active_cached :
    ActiveCache → Str → ℕ → Option (Option Bool) → ActiveCache × Option Bool
is_user_active_cached c user_id now user =
    fresh_or_read c user_id now user (get_fresh c user_id now)

-- What other tasks do to the cache.
pub data Step : Type 0 where
  evicts : Str → Step
  inserts : Str → Bool → ℕ → ℕ → Step

abbrev pub step : ActiveCache → Step → ActiveCache
step c (evicts u) = evict c u
step c (inserts u active gen_at_read now) = insert_if_current c u active gen_at_read now

unfoldable pub steps : ActiveCache → List Step → ActiveCache
steps c [] = c
steps c (s ∷ ss) = steps (step c s) ss

abbrev pub evictions : List Step → ℕ
evictions [] = 0
evictions (evicts u ∷ ss) = suc (evictions ss)
evictions (inserts u a g n ∷ ss) = evictions ss

-- Each insertion for the user carries a generation that was read by then.
abbrev pub BeganBy : Str → ℕ → Step → Type 0
BeganBy user_id gen (evicts u) = Unit
BeganBy user_id gen (inserts u active gen_at_read now) = str_eq u user_id ≡ true → gen_at_read ≤ gen

abbrev Absent : ActiveCache → Str → Type 0
Absent c user_id = IsMap c.map × (get c.map user_id ≡ none)

evict-Absent : (c : ActiveCache) (u v : Str) → Absent c v → Absent (evict c u) v
unfolding evict
evict-Absent c u v h = (
  remove-IsMap c.map u h.0,
  get-remove c.map u v ∙ elim (Bool-cases (str_eq u v)) [ inl e ↦ rw e refl | inr e ↦ rw e h.1 ],
)

swept-Absent :
    (c : ActiveCache) (v : Str) (now : ℕ) → Absent c v → get (retain (is_fresh now) c.map) v ≡ none
swept-Absent c v now h = get-retain (is_fresh now) c.map v h.0 ∙ rw h.1 refl

insert-Absent :
    (c : ActiveCache) (u v : Str) (active : Bool) (g now : ℕ)
    → Absent c v
    → (str_eq u v ≡ true → g < c.generation)
    → Absent (insert_if_current c u active g now) v
unfolding insert_if_current
insert-Absent c u v active g now h old = elim (Bool-cases (c.generation == g)) [
  | inr e ↦ rw e (retain-IsMap (is_fresh now) c.map h.0, swept-Absent c v now h)
  | inl e ↦
      let swept = retain (is_fresh now) c.map in
      rw e (
        insert-IsMap swept u (active, now) (retain-IsMap (is_fresh now) c.map h.0),
        get-insert swept u v (active, now) ∙ elim (Bool-cases (str_eq u v)) [
          | inl q ↦ absurd (ground (arith, old q))
          | inr q ↦ rw q (swept-Absent c v now h)
        ],
      )
]

stays-Absent :
    (c : ActiveCache) (u : Str) (gen : ℕ) (ss : List Step)
    → All (BeganBy u gen) ss
    → gen < c.generation
    → c.generation + evictions ss < 2 ^ 64
    → Absent c u
    → Absent (steps c ss) u
unfolding steps evict insert_if_current
stays-Absent c u gen [] b l w h = h
stays-Absent c u gen (evicts v ∷ ss) b l w h =
    stays-Absent (evict c v) u gen ss b.1 (omega (arith, l, w)) (omega (arith, w))
      (evict-Absent c v u h)
stays-Absent c u gen (inserts v active g now ∷ ss) b l w h =
    stays-Absent (insert_if_current c v active g now) u gen ss b.1 l w
      (insert-Absent c v u active g now h (λ q. omega (arith, l, b.0 q)))

evicted : (c : ActiveCache) (u : Str) → IsMap c.map → Absent (evict c u) u
unfolding evict
evicted c u h = (remove-IsMap c.map u h, get-remove c.map u u ∙ rw (str_eq_refl u) refl)

-- After the eviction of a user, whatever evictions and insertions other tasks make, no cached status of
-- that user is found, as long as each insertion for the user began to read before the eviction and the
-- generation does not wrap around.
pub evicted_stays :
    (c : ActiveCache) (u : Str) (ss : List Step) (now : ℕ)
    → IsMap c.map
    → All (BeganBy u c.generation) ss
    → c.generation + 1 + evictions ss < 2 ^ 64
    → get_fresh (steps (evict c u) ss) u now ≡ none
unfolding get_fresh evict
evicted_stays c u ss now m b w =
    ap (fresh_value now)
      (stays-Absent (evict c u) u c.generation ss b (omega (arith, w)) (omega (arith, w))
        (evicted c u m)).1
