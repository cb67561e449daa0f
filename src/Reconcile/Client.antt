-- ===== src/Reconcile/Client.antt =====
-- What the reconcilers share: the requests that they send to Kong, and the library that they call.
use Prim.Native.String
use kong.Base.{String, List, [], ◌∷◌, Bool, Option, none, some, Result, ok, err}
use kong.Base.Json.{Json, str, obj, Fields, end}
use kong.Base.Values.{or_else, item}
use kong.Admin.Program.{Program, Keeps, ◌>>=◌, pure}
use kong.Admin.Rows.{collect_admin_rows}

-- `str(value)` of a value that is no text, `json.dumps`, `urlencode` of one dictionary, and
-- `re.compile(pattern)`: whether it matches a whole text, `none` where the pattern does not compile
pub record Library : Type 0 where
  pub show : Json → String
  pub dumps : Json → String
  pub urlencode : Fields → String
  pub compile_pattern : String → Option (String → Bool)

-- `request` and `request_json` of a script, by their payload encoding; the answer is `None` for none. `normalize` is the one that it gives to
-- `collect_admin_rows`.
pub record Channel (S : Type 0) : Type 0 where
  pub send : String → String → String → Option Json → Program S Json
  pub normalize : String → Result String (Option String)

infixr 45 ◌<>◌
abbrev pub ◌<>◌ : String → String → String
a <> b = String.◌++◌ a b

-- a value in an f-string
abbrev pub text_of : Library → Json → String
text_of library (str text) = text
text_of library value = library.show value

-- `value['id']` in an f-string
abbrev pub id_text : Library → Json → Result String String
id_text library value = elim (item "id" value) [
  | ok id ↦ ok (text_of library id)
  | err message ↦ err message
]

-- the rows as values
abbrev pub as_values : List Fields → List Json
as_values [] = []
as_values (row ∷ rows) = obj row ∷ as_values rows

module _ {S : Type 0} (channel : Channel S) where
  -- `request(…) or {}`, with a form
  unfoldable pub request : String → String → Option Json → Program S Json
  request method path payload =
      channel.send "form" method path payload >>= λ value. pure (ok (or_else value (obj end)))

  -- `request_json(…)`
  unfoldable pub request_json : String → String → Option Json → Program S Json
  request_json method path payload =
      channel.send "json" method path payload >>= λ value. pure (ok (or_else value (obj end)))

  -- `all_rows`
  unfoldable pub all_rows : String → Program S (List Json)
  all_rows path s =
      let (rows, s') =
        collect_admin_rows (λ path. request "GET" path none) channel.normalize 10000 100 path s in
      (elim rows [ ok found ↦ ok (as_values found) | err message ↦ err message ], s')

  -- a request whose answer is not used
  unfoldable pub tell : String → String → Json → Program S (Unit {0})
  tell method path payload = request method path (some payload) >>= λ value. pure (ok tt)

  -- a `DELETE` whose answer is not used
  unfoldable pub delete : String → Program S (Unit {0})
  delete path = request "DELETE" path none >>= λ value. pure (ok tt)

-- Every request that reads keeps it.
abbrev pub ReadsKeep : {S : Type 0} → (S → Type 0) → Channel S → Type 0
ReadsKeep P channel = (encoding path : String) → Keeps P (channel.send encoding "GET" path none)
