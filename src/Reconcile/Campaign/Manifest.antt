-- ===== src/Reconcile/Campaign/Manifest.antt =====
-- reconcile_kong_campaign_automation.py: the consumers and routes of the manifest. The messages
-- leave out the values. `custom_id` is a text wherever it is sorted, since the loop tests it first.
use Prim.Native.Char.{code}
use kong.Base.{
  ℕ, zero, suc, ◌-◌, String, List, [], ◌∷◌, Bool, true, false, not, ◌&&◌, ◌||◌, Option, none, some,
  Result, ok, err, require, ◌>>=◌, ◌>>◌, any, all, length, ◌==◌, nat_eq, string_eq, if◌then◌else◌,
  ltb,
}
use kong.Base.Text.{codes, is_empty, begins}
use kong.Base.Json.{Json, str, arr, nil, obj, Fields}
use kong.Base.Values.{
  dict, is_true, equal, get_key, get_or, item, as_text, iterate, is_in, keep_if, begins_with,
}
use kong.Gateway.Checks.{Check}
use kong.Reconcile.Client.{Library, ◌<>◌}

abbrev hashable : Json → Bool
hashable (arr xs) = false
hashable (obj d) = false
hashable _ = true

-- the members of `set(xs)`
abbrev pub set_of : Json → Result String (List Json)
set_of value = iterate value >>= λ xs. if all hashable xs then ok xs else err "TypeError"

-- a `str` that is not empty
abbrev named_text : Json → Bool
named_text (str text) = not (is_empty text)
named_text _ = false

abbrev is_list : Json → Bool
is_list (arr xs) = true
is_list _ = false

-- `set(a) & set(b)` has a member
unfoldable pub intersects : List Json → List Json → Bool
unfolding equal
intersects xs ys = any (λ x. any (equal x) ys) xs

-- the loop over the consumers, with `seen`
unfoldable pub check_consumers : Json → List Json → List Json → Check
unfolding equal
check_consumers manifest [] seen = ok tt
check_consumers manifest (consumer ∷ rest) seen = do
  username ← get_key "username" consumer
  require (named_text username) "campaign consumer username must be a non-empty string"
  custom_id ← get_key "custom_id" consumer
  require (named_text custom_id) "campaign consumer custom_id must be a non-empty string"
  scopes ← get_key "scopes" consumer
  require (is_list scopes) "campaign consumer must declare a scopes list"
  require (not (any (equal custom_id) seen)) "duplicate campaign consumer"
  held ← set_of scopes
  listed ← get_or "forbidden_scopes" (arr nil) manifest
  forbidden ← set_of listed
  require (not (intersects held forbidden)) "campaign consumer holds forbidden scope"
  check_consumers manifest rest (custom_id ∷ seen)

unfoldable pub manifest_consumers : Json → Result String (List Json)
manifest_consumers manifest = do
  consumers ← get_key "consumers" manifest
  require (is_list consumers && is_true consumers)
      "campaign manifest must declare a non-empty consumers list"
  listed ← iterate consumers
  check_consumers manifest listed []
  ok listed

unfoldable pub consumer_entity : Json → Result String Fields
consumer_entity consumer = do
  username ← item "username" consumer
  custom_id ← item "custom_id" consumer
  ok (dict (("username", username) ∷ ("custom_id", custom_id) ∷ []))

-- `a <= b` on texts
abbrev pub text_leb : String → String → Bool
text_leb String.[] t = true
text_leb (String.◌∷◌ c s) String.[] = false
text_leb (String.◌∷◌ c s) (String.◌∷◌ d t) =
    ltb (code c) (code d) || (code c == code d && text_leb s t)

unfoldable pub insert : String → List String → List String
insert text [] = text ∷ []
insert text (t ∷ ts) =
    let inserted = insert text ts in if text_leb text t then text ∷ t ∷ ts else t ∷ inserted

-- `sorted(…)`
unfoldable pub sorted : List String → List String
unfolding insert
sorted [] = []
sorted (t ∷ ts) = insert t (sorted ts)

abbrev pub custom_ids : List Json → Result String (List String)
custom_ids [] = ok []
custom_ids (consumer ∷ rest) = do
  custom_id ← item "custom_id" consumer
  text ← as_text custom_id
  more ← custom_ids rest
  ok (text ∷ more)

-- the consumers that hold the scope
unfoldable pub holders : Json → List Json → Result String (List Json)
holders required_scope consumers =
    keep_if (λ consumer. item "scopes" consumer >>= λ scopes. is_in required_scope scopes) consumers

unfoldable pub authorized_parties : Json → Json → Result String (List String)
authorized_parties manifest required_scope = do
  consumers ← manifest_consumers manifest
  held ← holders required_scope consumers
  ids ← custom_ids held
  require (not (length ids == 0)) "no campaign consumer holds scope"
  ok (sorted ids)

-- a member of `{"GET", "POST"}`
abbrev pub supported : Json → Result String String
supported (str text) = do
  require (text == "GET" || text == "POST") "unsupported campaign route method"
  ok text
supported (arr xs) = err "TypeError"
supported (obj d) = err "TypeError"
supported _ = err "unsupported campaign route method"

unfoldable pub route_method : Json → Result String String
route_method route = get_or "method" (str "POST") route >>= supported

-- `text.replace(old, new)`, past `skip` more characters of an occurrence
unfoldable pub replace : String → String → ℕ → String → String
replace old new skip String.[] = String.[]
replace old new (suc skip) (String.◌∷◌ c s) = replace old new skip s
replace old new zero (String.◌∷◌ c s) =
    let past = new <> replace old new (length (codes old) - 1) s in
    let kept = String.◌∷◌ c (replace old new zero s) in
    if begins_with old (String.◌∷◌ c s) then past else kept

unfoldable pub concrete_sample : String → String
concrete_sample template =
    replace "{event_id}" "EVT-TEST-SYN-0001" 0 (replace "{campaign_id}" "TEST_SYN" 0 template)

-- `text.rsplit("/", 1)[0]`
unfoldable pub before_last : String → String
before_last String.[] = String.[]
before_last (String.◌∷◌ c s) =
    let rest = String.◌∷◌ c (before_last s) in
    if code c == 47 && not (has_slash s) then String.[] else rest
  where
    has_slash : String → Bool
    has_slash s = any (λ n. n == 47) (codes s)

-- `path[1:]`
abbrev tail_of : String → String
tail_of String.[] = String.[]
tail_of (String.◌∷◌ c s) = s

-- the pattern of a path that starts with `~`
unfoldable pub check_pattern : Library → String → Json → Check
check_pattern library path template = do
  require (is_true template) "regex campaign route must declare path_template"
  matches ← compiled (library.compile_pattern (tail_of path))
  text ← as_text template
  let sample = concrete_sample text
  require (matches sample) "campaign route regex rejects its own template sample"
  require (not (matches (sample <> "/other"))) "campaign route regex is not exact"
  require (not (matches (sample <> "/"))) "campaign route regex is not exact"
  require (not (matches (before_last sample <> "/"))) "campaign route regex is not exact"
  where
    compiled : Option (String → Bool) → Result String (String → Bool)
    compiled none = err "error"
    compiled (some matches) = ok matches

-- `(method, path) in keys`
abbrev pub is_key : String → Json → List (String × Json) → Bool
unfolding equal
is_key method path keys = any (λ k. k.0 == method && equal k.1 path) keys

-- one step of the loop of `validate_manifest_routes`: the pair that is added to `keys`
unfoldable pub check_campaign_route :
    Library → Json → Json → List (String × Json) → Result String (String × Json)
check_campaign_route library manifest route keys = do
  method ← route_method route
  path ← item "path" route
  require (hashable path) "TypeError"
  require (not (is_key method path keys)) "duplicate campaign route"
  actions ← is_in (str "campaign-actions") path
  commands ← if actions then ok true else is_in (str "campaign-commands") path
  require (not commands) "retired campaign surface declared"
  scope ← item "scope" route
  parties ← authorized_parties manifest scope
  template ← get_key "path_template" route
  text ← as_text path
  if begins 126 text
      then check_pattern library text template
      else require (not (is_true template) || equal template path)
          "campaign route path_template must equal its literal path"
  ok (method, path)

unfoldable pub check_campaign_routes : Library → Json → List Json → List (String × Json) → Check
check_campaign_routes library manifest [] keys = ok tt
check_campaign_routes library manifest (route ∷ rest) keys = do
  key ← check_campaign_route library manifest route keys
  check_campaign_routes library manifest rest (key ∷ keys)

unfoldable pub validate_manifest_routes : Library → Json → Check
validate_manifest_routes library manifest = do
  listed ← item "routes" manifest
  routes ← iterate listed
  check_campaign_routes library manifest routes []
