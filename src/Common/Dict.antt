-- ===== src/Common/Dict.antt =====
-- A JavaScript `Map` or `Record<string, V>` as its list of entries, in the order of insertion: a key
-- that is there keeps its place, a new one goes last. Keys are ids that are no array indices.
use Prim.Native.String.{String}
use mathlib.Core.Path.{◌≡◌, refl}
use mathlib.Core.List.{List, [], ◌∷◌}
use mathlib.Core.Option.{Option, none, some}
use native.Mathlib.Omega.{arith}
use text.Mathlib.Text.{◌==◌}
use text.Mathlib.TextEquality.{eq_iff}
use text.Mathlib.TextPositions.{eq_refl}
use spectrum_connect_backend.Common.Tests.{if◌then◌else◌}

abbrev pub Dict : Type 0 → Type 0
Dict V = List (String × V)

module _ {V : Type 0} where
  -- `d[key]`, or `Map.get`.
  unfoldable pub lookup : String → Dict V → Option V
  lookup key [] = none
  lookup key ((here, x) ∷ d) = if here == key then some x else lookup key d

  -- `delete d[key]`, or `Map.delete`.
  unfoldable pub remove : String → Dict V → Dict V
  remove key [] = []
  remove key ((here, x) ∷ d) =
      let others = remove key d in if here == key then others else (here, x) ∷ others

  -- `d[key] = new`, or `Map.set`.
  unfoldable pub insert : String → V → Dict V → Dict V
  insert key new [] = (key, new) ∷ []
  insert key new ((here, x) ∷ d) =
      let kept = (here, x) ∷ insert key new d in if here == key then (key, new) ∷ d else kept

  pub lookup-remove :
      (key other : String) (d : Dict V)
      → lookup other (remove key d) ≡ (if key == other then none else lookup other d)
  unfolding lookup remove
  lookup-remove key other [] = ground arith
  lookup-remove key other ((here, x) ∷ d) =
      ground
        (arith, lookup-remove key other d, eq_iff here key, eq_iff here other, eq_iff key other)

  pub lookup-remove_self : (key : String) (d : Dict V) → lookup key (remove key d) ≡ none
  lookup-remove_self key d = ground (arith, lookup-remove key key d, eq_refl key)

  pub lookup-insert :
      (key other : String) (new : V) (d : Dict V)
      → lookup other (insert key new d) ≡ (if key == other then some new else lookup other d)
  unfolding insert lookup
  lookup-insert key other new [] = refl
  lookup-insert key other new ((here, x) ∷ d) =
      ground
        (arith, lookup-insert key other new d, eq_iff here key, eq_iff here other, eq_iff key other)

  pub lookup-insert_self :
      (key : String) (new : V) (d : Dict V) → lookup key (insert key new d) ≡ some new
  lookup-insert_self key new d = ground (arith, lookup-insert key key new d, eq_refl key)
