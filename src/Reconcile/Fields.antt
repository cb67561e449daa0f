-- ===== src/Reconcile/Fields.antt =====
-- `require_exact_fields`, `require_plugin` and `plugin_form` of reconcile_kong_campaign_automation.py,
-- and `one`. The message of a drift leaves out the values.
pub mod Lookup
use kong.Base.{
  String, List, [], ◌∷◌, Bool, true, false, not, ◌||◌, Result, ok, err, require, ◌>>=◌, ◌==◌,
  string_eq, if◌then◌else◌,
}
use kong.Base.Json.{Json, null, bool, num, str, arr, obj, Items, nil, cons, Fields, end, field}
use kong.Base.Values.{equal, get_key, get_or, sequence}
use kong.Gateway.Checks.{Check}
use kong.Reconcile.Client.{◌<>◌}

-- `one`: the row, or `None`
unfoldable pub one : String → List Json → Result String Json
one message [] = ok null
one message (row ∷ []) = ok row
one message (row ∷ second ∷ rows) = err message

-- `one` of a value
unfoldable pub one_of : String → Json → Result String Json
one_of message value = sequence value >>= one message

-- an entry of `drift` is there
unfoldable pub drifts : Json → Fields → Result String Bool
drifts actual end = ok false
drifts actual (field key value rest) = do
  found ← get_key key actual
  more ← drifts actual rest
  ok (not (equal found value) || more)

-- `expected.items()`
abbrev pub fields_of : Json → Result String Fields
fields_of (obj fields) = ok fields
fields_of _ = err "AttributeError"

unfoldable pub require_exact_fields : Json → Json → String → Check
require_exact_fields actual expected description = do
  fields ← fields_of expected
  drift ← drifts actual fields
  require (not drift) (description <> " configuration drift")

unfoldable pub require_plugin : Json → Json → String → Check
require_plugin plugin expected description = do
  config ← get_or "config" (obj end) plugin
  require_exact_fields config expected description

-- `result[key] = value`
unfoldable pub put : String → Json → Fields → Fields
put key value end = field key value end
put key value (field k v rest) =
    let changed = put key value rest in if k == key then field k value rest else field k v changed

abbrev pub form_value : Json → Json
form_value (bool true) = str "true"
form_value (bool false) = str "false"
form_value value = value

abbrev pub form_values : Items → Items
form_values nil = nil
form_values (cons x xs) = cons (form_value x) (form_values xs)

unfoldable mutual
  -- `add`
  pub add : String → Json → Fields → Fields
  add prefix (obj value) result = add_all prefix value result
  add prefix (arr value) result = put (prefix <> "[]") (arr (form_values value)) result
  add prefix null result = put prefix null result
  add prefix (bool b) result = put prefix (form_value (bool b)) result
  add prefix (num n) result = put prefix (num n) result
  add prefix (str text) result = put prefix (str text) result

  -- the loop over the entries of a dictionary
  pub add_all : String → Fields → Fields → Fields
  add_all prefix end result = result
  add_all prefix (field key value rest) result =
      add_all prefix rest (add (prefix <> "." <> key) value result)

unfoldable pub plugin_form : Fields → Fields
unfolding add
plugin_form config = add_all "config" config end

-- `{"name": name, **plugin_form(config)}`
unfoldable pub update : Fields → Fields → Fields
unfolding put
update base end = base
update base (field key value rest) = update (put key value base) rest

unfoldable pub named_form : String → Fields → Fields
unfolding update plugin_form
named_form name config = update (field "name" (str name) end) (plugin_form config)
