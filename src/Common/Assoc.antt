-- ===== src/Common/Assoc.antt =====
-- Go maps with text keys, as association lists that hold each key once.
use Prim.Native.String.{String}
use mathlib.Core.Path.{◌≡◌}
use mathlib.Core.Option.{Option, none, some}
use mathlib.Core.List.{List, [], ◌∷◌}
use native.Mathlib.Omega.{arith}
use podman_api.Common.Tests.{if◌then◌else◌}
use podman_api.Common.Equality.{string_eq, ◌==◌}

module _ {V : Type 0} where
  unfoldable pub get : List (String × V) → String → Option V
  get [] key = none
  get ((k, v) ∷ entries) key = if k == key then some v else get entries key

  unfoldable pub remove : String → List (String × V) → List (String × V)
  remove key [] = []
  remove key ((k, v) ∷ entries) =
      let others = remove key entries in if k == key then others else (k, v) ∷ others

  unfoldable pub put : String → V → List (String × V) → List (String × V)
  unfolding remove
  put key v entries = (key, v) ∷ remove key entries

  pub get-remove :
      (key other : String) (entries : List (String × V))
      → get (remove key entries) other ≡ (if key == other then none else get entries other)
  unfolding get remove
  get-remove key other [] = ground arith
  get-remove key other ((k, v) ∷ entries) = ground (
    arith,
    string_eq.same_iff k key,
    string_eq.same_iff k other,
    string_eq.same_iff key other,
    get-remove key other entries,
  )

  pub get-put :
      (key other : String) (v : V) (entries : List (String × V))
      → get (put key v entries) other ≡ (if key == other then some v else get entries other)
  unfolding get put
  get-put key other v entries = ground (arith, get-remove key other entries)
