-- ===== src/Standby/Tests.antt =====
-- A Kong with one plugin of the standby, and one that lists a row of the standby everywhere.
use kong.Base.{
  ◌⊎◌, none, ℕ, ◌+◌, String, List, [], ◌∷◌, Bool, true, false, Option, some, ok, ◌≡◌, ◌≢◌, inl, inr,
  refl, sym, subst, ap, ◌∙◌, In, arith, ok_injective, ◌==◌, string_eq, if◌then◌else◌,
}
use kong.Base.Json.{Json, null, str, arr, nil, cons, obj}
use kong.Base.Values.{dict, texts, get_key}
use kong.Admin.Program.{Program, Keeps, ◌>>=◌, ◌>>◌, pure, branch, for_each}
use kong.Standby.{tag, Admin}
use kong.Standby.Rollback.{
  identifiers_of, first_page, list_data, rollback, drain_all, drain, page_identifiers,
  delete_entity,
}
use kong.Standby.Apply.{apply_standby}
use kong.Standby.Apply.Log.{recorded, silent, AllSanctioned}
use kong.Standby.Apply.Owned.{apply_standby_owned}
use kong.Standby.Drained.{IsEmpty, rollback_leaves_nothing, rollback_ends}

abbrev plugin_id : String
plugin_id = "01234567-89ab-cdef-0123-456789abcdef"

-- what is listed while the plugin is there, and after
abbrev listing : Bool → Json
listing true = obj (dict (("data", arr (cons (obj (dict (("id", str plugin_id) ∷ []))) nil)) ∷ []))
listing false = obj (dict (("data", arr nil) ∷ []))

abbrev left : String → Bool → Bool
left method present = if method == "DELETE" then false else present

abbrev tagged_kong : Admin Bool
tagged_kong = record {
  send = λ method path payload present. (ok (listing present), left method present);
  confirm_unchanged = λ present. (ok tt, present);
  urlencode = λ name. "";
  quote = λ text. text;
}

rolled_back : rollback tagged_kong 2 true ≡ (ok true, false)
unfolding rollback ◌>>=◌ drain_all drain first_page pure list_data get_key branch page_identifiers
    ◌>>◌ for_each delete_entity
rolled_back = refl

cons-ne-nil : {row : Json} {rows : List Json} → ◌≢◌ {A = List Json} (row ∷ rows) []
cons-ne-nil h = cc

quiet_kong :
    (collection method path : String)
    → (method ≡ "GET") ⊎ (method ≡ "DELETE")
    → Keeps (IsEmpty tagged_kong collection) (tagged_kong.send method path none)
unfolding first_page ◌>>=◌ pure list_data get_key
quiet_kong collection method path either = record { after = λ s empty. stays s empty }
  where
    same : (b : Bool) → (if b then false else false) ≡ false
    same true = refl
    same false = refl

    stays :
        (s : Bool)
        → IsEmpty tagged_kong collection s
        → IsEmpty tagged_kong collection (left method s)
    stays false empty =
        subst (IsEmpty tagged_kong collection) (sym (same (method == "DELETE"))) empty
    stays true empty = absurd (cons-ne-nil (ok_injective empty.lists_none))

last_check :
    (collection : String) → Keeps (IsEmpty tagged_kong collection) tagged_kong.confirm_unchanged
last_check collection = record { after = λ s empty. empty }

rollback_leaves_nothing_example : IsEmpty tagged_kong "routes" false
rollback_leaves_nothing_example =
    rollback_leaves_nothing tagged_kong quiet_kong last_check 2 true false rolled_back "routes"
      (inr (inl refl))

lists_plugin :
    (collection : String) (s s' : Bool) (rows : List Json) (ids : List String)
    → first_page tagged_kong collection s ≡ (ok rows, s')
    → identifiers_of rows ≡ ok ids
    → (id : String) → In id ids
    → In id (plugin_id ∷ [])
unfolding first_page ◌>>=◌ pure list_data get_key identifiers_of
lists_plugin collection true s' rows ids h e id m =
    let same = ok_injective (ap (λ r. r.0) h) in
    subst (In id) (sym (ok_injective (ap identifiers_of same ∙ e))) m
lists_plugin collection false s' rows ids h e id m =
    let same = ok_injective (ap (λ r. r.0) h) in
    absurd (subst (In id) (sym (ok_injective (ap identifiers_of same ∙ e))) m)

rollback_ends_example : rollback tagged_kong 2 true ≢ (ok false, false)
rollback_ends_example =
    rollback_ends tagged_kong (plugin_id ∷ []) lists_plugin 2 true false (omega arith)

-- a service, and a route, with the tag
abbrev standby_row : Json
standby_row = obj (dict (("id", str plugin_id) ∷ ("tags", texts (tag ∷ [])) ∷ []))

-- this Kong lists the one row everywhere, and counts the entities that are changed
abbrev changed : String → ℕ → ℕ
changed method count = if method == "PATCH" then count + 1 else count

abbrev owned_kong : Admin ℕ
owned_kong = record {
  send = λ method path payload count. (
    ok (obj (dict (("id", str plugin_id) ∷ ("data", arr (cons standby_row nil)) ∷ []))),
    changed method count,
  );
  confirm_unchanged = λ count. (ok tt, count);
  urlencode = λ name. "";
  quote = λ text. text;
}

abbrev standby_config : Json
standby_config = obj (
    dict (
      (
        "services",
        arr (
            cons
              (obj (
                dict (
                  ("name", str "sms")
                  ∷ ("path", str "/v1/sms")
                  ∷ ("methods", texts ("POST" ∷ []))
                  ∷ ("connectTimeoutMs", null)
                  ∷ ("writeTimeoutMs", null)
                  ∷ ("readTimeoutMs", null)
                  ∷ ("bodyLimitBytes", null)
                  ∷ ("ratePerMinute", null)
                  ∷ [])))
              nil),
      )
      ∷ ("trustedHeadersToStrip", arr nil)
      ∷ []))

abbrev denied : Program ℕ (Option ℕ)
denied count = (ok (some 401), count)

apply_standby_owned_example :
    AllSanctioned owned_kong.urlencode
      (apply_standby (recorded owned_kong) (silent denied) standby_config (0, [])).1.1
apply_standby_owned_example = apply_standby_owned owned_kong denied standby_config 0
