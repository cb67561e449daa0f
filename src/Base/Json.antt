-- ===== src/Base/Json.antt =====
-- The values of `json.loads`, numbers with a fraction left out, and the reading of dictionaries.
use Prim.Native.String.{String}
use mathlib.Core.Bool.{Bool}
use mathlib.Core.List.{List, [], ◌∷◌}
use mathlib.Core.Option.{Option, none, some}
use kong.Base.Tests.{string_eq, ◌==◌, if◌then◌else◌}
use kong.Base.Int.{ℤ}

mutual
  pub data Json : Type 0 where
    null : Json
    bool : Bool → Json
    num : ℤ → Json
    str : String → Json
    arr : Items → Json
    obj : Fields → Json

  pub data Items : Type 0 where
    nil : Items
    cons : Json → Items → Items

  pub data Fields : Type 0 where
    end : Fields
    field : String → Json → Fields → Fields

-- `d.get(key)`, with `none` for a missing key
unfoldable pub get : String → Fields → Option Json
get key end = none
get key (field k v rest) = if k == key then some v else get key rest

-- a list whose members are all dictionaries
unfoldable pub dicts : Items → Option (List Fields)
dicts nil = some []
dicts (cons (obj row) rest) = elim (dicts rest) [ none ↦ none | some rows ↦ some (row ∷ rows) ]
dicts (cons v rest) = none
