-- ===== src/Standby/Rollback.antt =====
-- rollback_kong_standby.py. The loop of a collection is on fuel; `ok false` is a loop that still
-- runs where the fuel ends.
use kong.Base.{
  ℕ, zero, suc, String, List, [], ◌∷◌, ◌++◌, Bool, true, false, not, ◌&&◌, Option, none, some,
  Result, ok, err, require, length, any, elem, distinct, ◌==◌, nat_eq, string_eq, if◌then◌else◌,
}
use kong.Base as Base
use kong.Base.Json.{Json, arr, obj, end}
use kong.Base.Values.{members, or_else, get_key}
use kong.Admin.Program.{Program, ◌>>=◌, ◌>>◌, pure, branch, for_each}
use kong.Reconcile.Client.{◌<>◌}
use kong.Standby.{tag, Admin, entity_id}

-- `data`, which must be a list
unfoldable pub list_data : Json → Result String (List Json)
list_data response =
    Base.◌>>=◌ (get_key "data" (or_else response (obj end))) (λ data_. as_list data_)
  where
    as_list : Json → Result String (List Json)
    as_list (arr xs) = ok (members xs)
    as_list value = err "invalid Kong collection"

-- `[entity_id(item.get("id")) for item in data if isinstance(item, dict)]`
unfoldable pub identifiers_of : List Json → Result String (List String)
unfolding entity_id
identifiers_of [] = ok []
identifiers_of (obj row ∷ rows) = Base.◌>>=◌ (get_key "id" (obj row)) (λ id.
    Base.◌>>=◌ (entity_id id) (λ text. Base.◌>>=◌ (identifiers_of rows) (λ rest. ok (text ∷ rest))))
identifiers_of (row ∷ rows) = identifiers_of rows

-- `deleted.intersection(identifiers)` is not empty
abbrev pub meets : List String → List String → Bool
meets deleted identifiers = any (λ id. elem id deleted) identifiers

-- the identities of a page that is not empty, none of them deleted before
unfoldable pub page_identifiers : List Json → List String → Result String (List String)
unfolding identifiers_of
page_identifiers rows deleted = Base.◌>>=◌ (identifiers_of rows) (λ identifiers.
    Base.◌>>◌
      (require (length identifiers == length rows && distinct identifiers)
        "invalid Kong identities")
      (Base.◌>>◌ (require (not (meets deleted identifiers)) "rollback made no progress")
        (ok identifiers)))

abbrev pub is_none : List Json → Bool
is_none [] = true
is_none (row ∷ rows) = false

module _ {S : Type 0} (admin : Admin S) where
  -- the first page of the collection
  unfoldable pub first_page : String → Program S (List Json)
  first_page collection = do
    response ←
        admin.send "GET" ("/" <> collection <> "?tags=" <> admin.quote tag <> "&size=1000") none
    pure (list_data response)

  unfoldable pub delete_entity : String → String → Program S (Unit {0})
  delete_entity collection identifier = do
    answer ← admin.send "DELETE" ("/" <> collection <> "/" <> identifier) none
    pure (ok tt)

  -- `while True`
  unfoldable pub drain : ℕ → String → List String → Program S Bool
  drain zero collection deleted = pure (ok false)
  drain (suc fuel) collection deleted = do
    rows ← first_page collection
    branch (is_none rows) (pure (ok true)) (do
      identifiers ← pure (page_identifiers rows deleted)
      for_each identifiers (delete_entity collection)
      drain fuel collection (identifiers ++ deleted))

  -- the loop over the collections
  unfoldable pub drain_all : ℕ → List String → Program S Bool
  drain_all fuel [] = pure (ok true)
  drain_all fuel (collection ∷ rest) = do
    drained ← drain fuel collection []
    branch drained (drain_all fuel rest) (pure (ok false))

  -- `main`
  unfoldable pub rollback : ℕ → Program S Bool
  rollback fuel = do
    drained ← drain_all fuel ("plugins" ∷ "routes" ∷ "services" ∷ [])
    branch drained (do admin.confirm_unchanged; pure (ok true)) (pure (ok false))
