-- ===== src/Reconcile/Callback/Tests.antt =====
-- A Kong that knows whether a route was written under a host that is served.
use kong.Base.{
  String, [], ◌∷◌, Bool, false, not, ◌&&◌, ◌||◌, Option, none, some, ok, ◌≡◌, ◌==◌, string_eq,
  if◌then◌else◌,
}
use kong.Base.Json.{Json, str, arr, nil, cons, obj, Fields, get}
use kong.Base.Values.{dict, texts, equal, begins_with}
use kong.Reconcile.Client.{Channel}
use kong.Reconcile.Callback.Payloads.{staged_host}
use kong.Reconcile.Tests.{row}

abbrev is_route_write : String → String → Bool
is_route_write method path =
    if method == "PATCH"
    then begins_with "/routes/" path
    else (method == "POST" && not (begins_with "/routes/" path))

abbrev other_hosts : Option Json → Bool
unfolding equal
other_hosts none = false
other_hosts (some hosts) = not (equal hosts staged_host)

-- a payload with other hosts than the one that is not served
unfoldable names_hosts : Option Json → Bool
unfolding get
names_hosts (some (obj fields)) = other_hosts (get "hosts" fields)
names_hosts payload = false

abbrev serving : Channel Bool
serving = record {
  send = λ encoding method path payload served. (
    ok (obj (dict (("data", arr (cons row nil)) ∷ []))),
    served || is_route_write method path && names_hosts payload,
  );
  normalize = λ path. ok (some path);
}

abbrev Unserved : Bool → Type 0
Unserved served = served ≡ false

abbrev callback_route : Json
callback_route = obj (
    dict (
      ("name", str "n8n")
      ∷ ("paths", texts ("/v1/callbacks" ∷ []))
      ∷ ("methods", texts ("POST" ∷ []))
      ∷ ("requiredScope", str "callbacks")
      ∷ []))
