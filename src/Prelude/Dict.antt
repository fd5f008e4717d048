-- ===== src/Prelude/Dict.antt =====
-- A JS `Map` with string keys: an association list in the order of insertion. Setting a key that
-- is there keeps its place.
use Prim.Native.String.{String}
use mathlib.Core.Path.{◌≡◌, refl}
use mathlib.Core.Bool.{Bool, true, false}
use mathlib.Core.Option.{Option, none, some}
use mathlib.Core.List.{List, [], ◌∷◌}
use native.Mathlib.Omega.{arith}
use text.Mathlib.Text.{◌==◌}
use text.Mathlib.TextEquality.{eq_iff}
use mathlib.Core.Logic.{◌↔◌, ◌⊎◌}
use workflow_control.Prelude.Lists.{In, Distinct}
use workflow_control.Prelude.Tests.{if◌then◌else◌}

abbrev pub is_some {ℓ} : {A : Type ℓ} → Option A → Bool
is_some none = false
is_some (some a) = true

module _ {ℓ} {V : Type ℓ} where
  unfoldable pub map_get : List (String × V) → String → Option V
  map_get [] k = none
  map_get ((j, v) ∷ m) k = if j == k then some v else map_get m k

  unfoldable pub map_set : List (String × V) → String → V → List (String × V)
  map_set [] k v = (k, v) ∷ []
  map_set ((j, w) ∷ m) k v =
      let rest = map_set m k v in if j == k then (j, v) ∷ m else (j, w) ∷ rest

  abbrev pub map_has : List (String × V) → String → Bool
  map_has m k = is_some (map_get m k)

  pub map_get-map_set :
      (m : List (String × V)) (k j : String) (v : V)
      → map_get (map_set m k v) j ≡ (if k == j then some v else map_get m j)
  unfolding map_get map_set
  map_get-map_set [] k j v = refl
  map_get-map_set ((i, w) ∷ m) k j v =
      ground (arith, eq_iff k j, eq_iff i k, eq_iff i j, map_get-map_set m k j v)

abbrev pub keys : {V : Type 0} → List (String × V) → List String
keys [] = []
keys ((k, v) ∷ m) = k ∷ keys m

In-keys-map_set :
    {V : Type 0} (m : List (String × V)) (k x : String) (v : V)
    → In x (keys (map_set m k v)) ↔ (In x (keys m) ⊎ (k ≡ x))
unfolding map_set
In-keys-map_set [] k x v = ground arith
In-keys-map_set ((j, w) ∷ m) k x v = ground (arith, eq_iff j k, In-keys-map_set m k x v)

-- A dictionary has each key once, and setting one keeps it so.
pub Distinct-keys-map_set :
    {V : Type 0} (m : List (String × V)) (k : String) (v : V)
    → Distinct (keys m)
    → Distinct (keys (map_set m k v))
unfolding map_set
Distinct-keys-map_set [] k v d = ground arith
Distinct-keys-map_set ((j, w) ∷ m) k v d =
    ground (arith, eq_iff j k, Distinct-keys-map_set m k v, In-keys-map_set m k j v)
