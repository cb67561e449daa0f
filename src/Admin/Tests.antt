-- ===== src/Admin/Tests.antt =====
-- A collection of two pages, and one whose second page is the first again.
use kong.Base.{
  ℕ, ◌≤◌, ◌+◌, String, List, [], ◌∷◌, some, ◌≡◌, ◌↔◌, refl, Result, ok, err, length, Option,
  Distinct, ◌==◌, string_eq, if◌then◌else◌,
}
use kong.Base.Json.{Json, str, arr, obj, Items, nil, cons, Fields, end, field}
use kong.Admin.Rows.{
  collect_admin_rows, collect, next_path, accept_page, page_rows, page_next, row_identity,
  check_identities,
}
use kong.Admin.Rows.Spec.{Inventory, NewIdentities}
use kong.Admin.Rows.Completes.{collect_admin_rows-eq-ok_iff}

abbrev row : String → Fields
row id = field "id" (str id) end

abbrev page : Items → String → Json
page rows next = obj (field "data" (arr rows) (field "next" (str next) end))

-- the state counts the fetches
abbrev fetch_page : String → ℕ → Result String Json × ℕ
fetch_page path s =
    if path == "/services"
    then (ok (page (cons (obj (row "a")) (cons (obj (row "b")) nil)) "/services?offset=1"), s + 1)
    else if path == "/services?offset=1"
    then (ok (page (cons (obj (row "c")) nil) ""), s + 1)
    else if path == "/loop"
    then (ok (page nil "/loop"), s + 1)
    else (err "unavailable", s)

abbrev normalize : String → Result String (Option String)
normalize path = ok (some path)

abbrev services : List Fields
services = row "a" ∷ row "b" ∷ row "c" ∷ []

collected : collect_admin_rows fetch_page normalize 3 2 "/services" 0 ≡ (ok services, 2)
unfolding collect_admin_rows collect next_path accept_page page_rows page_next row_identity
    check_identities
collected = refl

too_few_pages :
    collect_admin_rows fetch_page normalize 3 1 "/services" 0
    ≡ (err "Kong collection page limit exceeded", 1)
unfolding collect_admin_rows collect next_path accept_page page_rows page_next row_identity
    check_identities
too_few_pages = refl

loops :
    collect_admin_rows fetch_page normalize 3 9 "/loop" 0 ≡ (err "Kong pagination loop detected", 1)
unfolding collect_admin_rows collect next_path accept_page page_rows page_next row_identity
    check_identities
loops = refl

collect_admin_rows-eq-ok_iff_example :
    (collect_admin_rows fetch_page normalize 3 2 "/services" 0 ≡ (ok services, 2)) ↔ (
      (urls : List String) × Inventory fetch_page normalize urls "/services" 0 services 2
      × Distinct urls
      × (length urls ≤ 2)
      × (length services ≤ 3)
      × NewIdentities services [])
collect_admin_rows-eq-ok_iff_example =
    collect_admin_rows-eq-ok_iff fetch_page normalize 3 2 "/services" 0 services 2
