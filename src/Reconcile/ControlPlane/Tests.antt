-- ===== src/Reconcile/ControlPlane/Tests.antt =====
-- A Kong that knows under which host its route is.
use kong.Base.{
  String, [], ◌∷◌, Bool, false, not, ◌&&◌, ◌||◌, Option, none, some, ok, ◌≡◌, ◌==◌, string_eq,
  if◌then◌else◌,
}
use kong.Base.Int.{pos}
use kong.Base.Json.{Json, num, str, arr, nil, cons, obj, Fields, get}
use kong.Base.Values.{dict, equal, begins_with}
use kong.Reconcile.Client.{Channel}
use kong.Reconcile.Tests.{row}

abbrev staged_hosts : Json
staged_hosts = arr (cons (str "staged.invalid") nil)

abbrev is_route_write : String → String → Bool
is_route_write method path =
    if method == "PATCH"
    then begins_with "/routes/" path
    else (method == "POST" && not (begins_with "/routes/" path))

abbrev other_hosts : Option Json → Bool
unfolding equal
other_hosts none = false
other_hosts (some hosts) = not (equal hosts staged_hosts)

-- a payload with other hosts than the staged one
unfoldable names_hosts : Option Json → Bool
unfolding get
names_hosts (some (obj fields)) = other_hosts (get "hosts[]" fields)
names_hosts payload = false

-- whether a route was written with other hosts
abbrev exposing : Channel Bool
exposing = record {
  send = λ encoding method path payload exposed. (
    ok (obj (dict (("data", arr (cons row nil)) ∷ []))),
    exposed || is_route_write method path && names_hosts payload,
  );
  normalize = λ path. ok (some path);
}

abbrev Hidden : Bool → Type 0
Hidden exposed = exposed ≡ false

abbrev n8n_route : Json
n8n_route = obj (
    dict (
      ("name", str "n8n")
      ∷ ("path", str "/v1/events")
      ∷ ("method", str "POST")
      ∷ ("scope", str "events")
      ∷ ("required_headers", arr nil)
      ∷ ("max_body_mb", num (pos 1))
      ∷ ("rate_per_minute", num (pos 60))
      ∷ []))
