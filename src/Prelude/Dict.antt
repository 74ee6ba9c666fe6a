-- ===== src/Prelude/Dict.antt =====
-- `Map` objects with texts for keys, as lists of entries in the order of insertion.
use Prim.Native.String.{String}
use mathlib.Core.Path.{◌≡◌, refl, ap, ◌∙◌}
use mathlib.Core.Bool.{true, false}
use mathlib.Core.Option.{Option, none, some}
use mathlib.Core.List.{List, [], ◌∷◌}
use native.Mathlib.Omega.{arith}
use text.Mathlib.TextEquality.{eq_iff}
use open_kritt.Prelude.Tests.{◌==◌, if◌then◌else◌}

module _ {ℓ} {V : Type ℓ} where
  -- `map.get(key)`
  abbrev pub map_get : String → List (String × V) → Option V
  map_get key [] = none
  map_get key ((other, value) ∷ entries) = if other == key then some value else map_get key entries

  -- `map.set(key, new)`: an entry that is there keeps its place.
  unfoldable pub map_set : String → V → List (String × V) → List (String × V)
  map_set key new ((other, value) ∷ entries) =
      if other == key then (key, new) ∷ entries else (other, value) ∷ map_set key new entries
  map_set key new [] = (key, new) ∷ []

  -- `map.delete(key)`
  unfoldable pub map_delete : String → List (String × V) → List (String × V)
  map_delete key ((other, value) ∷ entries) =
      if other == key then map_delete key entries else (other, value) ∷ map_delete key entries
  map_delete key [] = []

  module _ (key asked : String) where
    pub map_get-map_set :
        (new : V) (entries : List (String × V))
        → map_get asked (map_set key new entries)
          ≡ (if key == asked then some new else map_get asked entries)
    unfolding map_set
    map_get-map_set new ((other, value) ∷ entries) =
        ground (
          eq_iff other key,
          eq_iff key asked,
          eq_iff other asked,
          map_get-map_set new entries,
          arith,
        )
    map_get-map_set new [] = refl

    pub map_get-map_delete :
        (entries : List (String × V))
        → map_get asked (map_delete key entries)
          ≡ (if key == asked then none else map_get asked entries)
    unfolding map_delete
    map_get-map_delete ((other, value) ∷ entries) =
        ground (
          eq_iff other key,
          eq_iff key asked,
          eq_iff other asked,
          map_get-map_delete entries,
          arith,
        )
    map_get-map_delete [] = ground arith

    pub map_get-map_set_same :
        (new : V) (entries : List (String × V))
        → (key == asked) ≡ true
        → map_get asked (map_set key new entries) ≡ some new
    map_get-map_set_same new entries e =
        map_get-map_set new entries ∙ ap (λ b. if b then some new else map_get asked entries) e

    pub map_get-map_set_other :
        (new : V) (entries : List (String × V))
        → (key == asked) ≡ false
        → map_get asked (map_set key new entries) ≡ map_get asked entries
    map_get-map_set_other new entries e =
        map_get-map_set new entries ∙ ap (λ b. if b then some new else map_get asked entries) e

    pub map_get-map_delete_same :
        (entries : List (String × V))
        → (key == asked) ≡ true
        → map_get asked (map_delete key entries) ≡ none
    map_get-map_delete_same entries e =
        map_get-map_delete entries ∙ ap (λ b. if b then none else map_get asked entries) e

    pub map_get-map_delete_other :
        (entries : List (String × V))
        → (key == asked) ≡ false
        → map_get asked (map_delete key entries) ≡ map_get asked entries
    map_get-map_delete_other entries e =
        map_get-map_delete entries ∙ ap (λ b. if b then none else map_get asked entries) e
