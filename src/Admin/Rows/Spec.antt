-- ===== src/Admin/Rows/Spec.antt =====
-- A complete inventory: what `collect_admin_rows` returns, said without its loop's variables.
use kong.Base.{
  ◌==◌, string_eq, String, List, [], ◌∷◌, ◌++◌, false, Option, some, Result, ok, ◌≡◌, In,
}
use kong.Base.Json.{Json, Fields}
use kong.Admin.Rows.{
  page_rows, page_next, done, more, Identity, absent, named, invalid, row_identity,
}

module _ {S : Type 0} (fetch_page : String → S → Result String Json × S)
    (normalize : String → Result String (Option String)) where
  -- Fetching `url`, the normal form of `path`, gives a page with these rows.
  pub record Fetches (path url : String) (s : S) (page : Json) (rows : List Fields) (s' : S)
      : Type 0 where
    pub normal : normalize path ≡ ok (some url)
    pub full : (url == "") ≡ false
    pub fetched : fetch_page url s ≡ (ok page, s')
    pub listed : page_rows page ≡ some rows

  -- The pages at `urls`, each named by the page before it, hold `rows`, and the last names none.
  abbrev pub Inventory : List String → String → S → List Fields → S → Type 0
  Inventory [] path s rows s' = ⊥
  Inventory (url ∷ []) path s rows s' =
      (page : Json) × Fetches path url s page rows s' × (page_next page ≡ done)
  Inventory (url ∷ u ∷ urls) path s rows s' =
      (page : Json) × (mid : S) × (first : List Fields) × (rest : List Fields) × (next : String)
      × Fetches path url s page first mid
      × (page_next page ≡ more next)
      × Inventory (u ∷ urls) next mid rest s'
      × (rows ≡ first ++ rest)

-- The identities of the rows that have one are texts, not empty, and none is known before it.
abbrev pub NewIdentity : Identity → List String → (List String → Type 0) → Type 0
NewIdentity absent known rest = rest known
NewIdentity (named id) known rest = (¬ In id known) × rest (id ∷ known)
NewIdentity invalid known rest = ⊥

abbrev pub NewIdentities : List Fields → List String → Type 0
NewIdentities [] known = Unit
NewIdentities (row ∷ rows) known = NewIdentity (row_identity row) known (NewIdentities rows)
