-- ===== src/Admin/Rows.antt =====
-- `collect_admin_rows` of scripts/kong_admin_channel.py. What `fetch_page` and `normalize` do is the
-- caller's: `fetch_page` may change a state `S` and may raise. An error is its message.
pub mod Spec
pub mod Rounds
pub mod Collects
pub mod Completes
use kong.Base.{
  ℕ, zero, suc, ◌+◌, String, List, [], ◌∷◌, ◌++◌, Bool, true, false, not, ◌&&◌, ◌||◌, Option, none,
  some, Result, ok, err, require, ◌>>=◌, ◌>>◌, ltb, length, elem, ◌==◌, string_eq, if◌then◌else◌,
}
use kong.Base.Json.{Json, null, bool, num, str, arr, obj, Items, Fields, get, dicts}

-- `page["data"]`, if the page has the shape that the loop asks for
abbrev listed : Option Json → Option (List Fields)
listed (some (arr items)) = dicts items
listed _ = none

unfoldable pub page_rows : Json → Option (List Fields)
unfolding get dicts
page_rows (obj page) = listed (get "data" page)
page_rows _ = none

-- what `page.get("next")` says
pub data Next : Type 0 where
  done : Next
  more : String → Next
  unsafe : Next

abbrev next_of : Option Json → Next
next_of none = done
next_of (some null) = done
next_of (some (str path)) = if path == "" then done else more path
next_of (some _) = unsafe

unfoldable pub page_next : Json → Next
unfolding get
page_next (obj page) = next_of (get "next" page)
page_next _ = unsafe

-- the identity of a row, if it has the key
pub data Identity : Type 0 where
  absent : Identity
  named : String → Identity
  invalid : Identity

abbrev identity_of : Option Json → Identity
identity_of none = absent
identity_of (some (str id)) = if id == "" then invalid else named id
identity_of (some _) = invalid

unfoldable pub row_identity : Fields → Identity
unfolding get
row_identity row = identity_of (get "id" row)

abbrev pub duplicate : String
duplicate = "invalid or duplicate Kong collection identity"

abbrev see : Identity → List String → Result String (List String)
see absent identities = ok identities
see (named id) identities = if elem id identities then err duplicate else ok (id ∷ identities)
see invalid identities = err duplicate

-- the loop over the rows of a page: the identities that are known after it
unfoldable pub check_identities : List Fields → List String → Result String (List String)
check_identities [] identities = ok identities
check_identities (row ∷ rows) identities = do
  known ← see (row_identity row) identities
  check_identities rows known

-- the path that `normalize` gave
abbrev pub usable : Option String → Result String String
usable none = err "unsafe Kong pagination URL"
usable (some path) = if path == "" then err "unsafe Kong pagination URL" else ok path

abbrev pub or_raise {ℓ} : {A : Type ℓ} → Option A → String → Result String A
or_raise none message = err message
or_raise (some a) message = ok a

-- the part of a round before the page is fetched: the path to fetch
unfoldable pub next_path :
    (String → Result String (Option String)) → String → List String → Result String String
next_path normalize path seen = do
  candidate ← normalize path
  path ← usable candidate
  require (not (elem path seen)) "Kong pagination loop detected"
  ok path

-- the part after it: the rows of the page, and the identities that are known then
unfoldable pub accept_page :
    ℕ
    → Result String Json
    → List Fields
    → List String
    → Result String (List Fields × List String × Next)
accept_page max_rows fetched rows identities = do
  page ← fetched
  more_rows ← or_raise (page_rows page) "invalid Kong collection response"
  require (not (ltb max_rows (length rows + length more_rows))) "Kong collection row limit exceeded"
  known ← check_identities more_rows identities
  ok (more_rows, known, page_next page)

module _ {S : Type 0} (fetch_page : String → S → Result String Json × S)
    (normalize : String → Result String (Option String)) (max_rows : ℕ) where
  unfoldable pub collect :
      ℕ → String → List Fields → List String → List String → S → Result String (List Fields) × S
  collect zero path rows seen identities s = (err "Kong collection page limit exceeded", s)
  collect (suc pages) path rows seen identities s = elim (next_path normalize path seen) [
    | err message ↦ (err message, s)
    | ok path ↦
        let (fetched, s') = fetch_page path s in
        elim (accept_page max_rows fetched rows identities) [
          | err message ↦ (err message, s')
          | ok (more_rows, known, done) ↦ (ok (rows ++ more_rows), s')
          | ok (more_rows, known, more next) ↦
              collect pages next (rows ++ more_rows) (path ∷ seen) known s'
          | ok (more_rows, known, unsafe) ↦ (err "unsafe Kong pagination URL", s')
        ]
  ]

  unfoldable pub collect_admin_rows : ℕ → String → S → Result String (List Fields) × S
  unfolding collect
  collect_admin_rows max_pages path s = collect max_pages path [] [] [] s
