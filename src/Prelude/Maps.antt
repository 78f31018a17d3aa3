-- ===== src/Prelude/Maps.antt =====
-- `HashMap<String, V>` as an association list. No caller depends on the order of entries.
use Prim.Native.Nat.{◌≤◌}
use mathlib.Core.Path.{◌≡◌, refl}
use mathlib.Core.Bool.{Bool}
use mathlib.Core.Option.{Option, none, some}
use mathlib.Core.List.{List, [], ◌∷◌}
use native.Mathlib.Omega.{arith}
use toki_sync.Prelude.Tests.{if◌then◌else◌}
use toki_sync.Prelude.Lists.{length}
use toki_sync.Prelude.Text.{Str, str_eq, str_eq_iff}

abbrev pub HashMap {ℓ} : Type ℓ → Type ℓ
HashMap V = List (Str × V)

module _ {ℓ} {V : Type ℓ} where
  unfoldable pub get : HashMap V → Str → Option V
  get [] k = none
  get ((j, v) ∷ m) k = if str_eq j k then some v else get m k

  unfoldable pub insert : HashMap V → Str → V → HashMap V
  insert [] k v = (k, v) ∷ []
  insert ((j, w) ∷ m) k v = if str_eq j k then (k, v) ∷ m else (j, w) ∷ insert m k v

  unfoldable pub remove : HashMap V → Str → HashMap V
  remove [] k = []
  remove ((j, w) ∷ m) k = if str_eq j k then remove m k else (j, w) ∷ remove m k

  unfoldable pub retain : (V → Bool) → HashMap V → HashMap V
  retain p [] = []
  retain p ((j, w) ∷ m) = if p w then (j, w) ∷ retain p m else retain p m

  -- Each key stands once.
  abbrev pub IsMap : HashMap V → Type ℓ
  IsMap [] = Unit
  IsMap ((j, w) ∷ m) = (get m j ≡ none) × IsMap m

  abbrev pub keep_if : (V → Bool) → Option V → Option V
  keep_if p none = none
  keep_if p (some v) = if p v then some v else none

  pub get-insert :
      (m : HashMap V) (k j : Str) (v : V)
      → get (insert m k v) j ≡ (if str_eq k j then some v else get m j)
  unfolding get insert
  get-insert [] k j v = refl
  get-insert ((i, w) ∷ m) k j v =
      ground (arith, str_eq_iff k j, str_eq_iff i k, str_eq_iff i j, get-insert m k j v)

  pub get-remove :
      (m : HashMap V) (k j : Str) → get (remove m k) j ≡ (if str_eq k j then none else get m j)
  unfolding get remove
  get-remove [] k j = ground arith
  get-remove ((i, w) ∷ m) k j =
      ground (arith, str_eq_iff k j, str_eq_iff i k, str_eq_iff i j, get-remove m k j)

  pub get-retain :
      (p : V → Bool) (m : HashMap V) (k : Str) → IsMap m → get (retain p m) k ≡ keep_if p (get m k)
  unfolding get retain
  get-retain p [] k h = refl
  get-retain p ((i, w) ∷ m) k h = ground (arith, str_eq_iff i k, get-retain p m k h.1)

  pub insert-IsMap : (m : HashMap V) (k : Str) (v : V) → IsMap m → IsMap (insert m k v)
  unfolding get insert
  insert-IsMap [] k v h = (refl, tt)
  insert-IsMap ((i, w) ∷ m) k v h =
      ground (arith, str_eq_iff i k, str_eq_iff k i, get-insert m k i v, insert-IsMap m k v h.1)

  pub remove-IsMap : (m : HashMap V) (k : Str) → IsMap m → IsMap (remove m k)
  unfolding get remove
  remove-IsMap [] k h = tt
  remove-IsMap ((i, w) ∷ m) k h =
      ground (arith, str_eq_iff i k, str_eq_iff k i, get-remove m k i, remove-IsMap m k h.1)

  pub retain-IsMap : (p : V → Bool) (m : HashMap V) → IsMap m → IsMap (retain p m)
  unfolding get retain
  retain-IsMap p [] h = tt
  retain-IsMap p ((i, w) ∷ m) h = ground (arith, get-retain p m i h.1, retain-IsMap p m h.1)

  pub length-retain-le : (p : V → Bool) (m : HashMap V) → length (retain p m) ≤ length m
  unfolding retain
  length-retain-le p [] = omega arith
  length-retain-le p ((i, w) ∷ m) = ground (arith, length-retain-le p m)

pub ruleset map_laws = (get-insert, get-remove)
