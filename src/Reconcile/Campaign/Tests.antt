-- ===== src/Reconcile/Campaign/Tests.antt =====
-- A manifest with three consumers, two of which hold the scope.
use kong.Base.{String, List, [], ◌∷◌, none, Result, ok, err}
use kong.Base.Json.{Json, str, arr, nil, cons, obj}
use kong.Base.Values.{dict, texts, item, is_in, get_key, iterate, get_or, keep_if}
use kong.Reconcile.Campaign.Manifest.{
  check_consumers, intersects, manifest_consumers, holders, sorted, authorized_parties,
}
use kong.Reconcile.Client.{Library, ◌<>◌}
use kong.Reconcile.Campaign.Guard.{campaign_guard}

abbrev consumer_of : String → List String → Json
consumer_of name scopes =
    obj (dict (("username", str name) ∷ ("custom_id", str name) ∷ ("scopes", texts scopes) ∷ []))

abbrev three : List Json
three =
    consumer_of "worker" ("events" ∷ [])
    ∷ consumer_of "viewer" ("reports" ∷ [])
    ∷ consumer_of "n8n" ("reports" ∷ "events" ∷ [])
    ∷ []

abbrev parties_manifest : Json
parties_manifest = obj (
    dict (
      (
        "consumers",
        arr (
            cons (consumer_of "worker" ("events" ∷ [])) (
              cons (consumer_of "viewer" ("reports" ∷ []))
                (cons (consumer_of "n8n" ("reports" ∷ "events" ∷ [])) nil))),
      )
      ∷ ("issuer", str "https://id.example")
      ∷ ("audience", str "kong")
      ∷ ("environment", str "staging")
      ∷ ("forbidden_scopes", texts ("admin" ∷ []))
      ∷ []))

-- `json.dumps` of a text without escapes
abbrev quoted : Json → String
quoted (str text) = "'" <> text <> "'"
quoted value = ""

abbrev quoting : Library
quoting = record {
  show = quoted;
  dumps = quoted;
  urlencode = λ fields. "";
  compile_pattern = λ pattern. none;
}

abbrev text_of : Result String String → String
text_of (ok text) = text
text_of (err message) = message

abbrev events_lua : String
unfolding campaign_guard authorized_parties manifest_consumers get_key iterate check_consumers
    get_or intersects holders keep_if item is_in sorted
events_lua = text_of (campaign_guard quoting parties_manifest (str "events"))
