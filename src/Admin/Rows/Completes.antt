-- ===== src/Admin/Rows/Completes.antt =====
-- An inventory that is within the limits is returned.
use kong.Admin.Rows.Collects.{collect_sound}
use mathlib.Core.List.{append_assoc, append-nil}
use kong.Base.{
  ℕ, zero, suc, ◌+◌, ◌≤◌, String, List, [], ◌∷◌, ◌++◌, false, Option, some, Result, ok, ◌>>=◌, ◌≡◌,
  ◌↔◌, refl, sym, ◌∙◌, ap, arith, ltb, length, length-append, elem, elem_iff, In, Distinct, All,
  ◌==◌, string_eq, Bool-cases, inl, inr,
}
use kong.Base.Json.{Json, Fields}
use kong.Admin.Rows.{
  page_rows, page_next, Identity, absent, named, invalid, row_identity, check_identities, see,
  next_path, accept_page, collect, collect_admin_rows,
}
use kong.Admin.Rows.Spec.{Inventory, NewIdentity, NewIdentities}

not_elem : (x : String) (xs : List String) → ¬ In x xs → elem x xs ≡ false
not_elem x xs h = elim (Bool-cases (elem x xs)) [
  | inl e ↦ absurd (h ((elem_iff x xs).0 e))
  | inr e ↦ e
]

Checked : List Fields → List String → List Fields → Type 0
Checked first ids rest =
    (known : List String) × (check_identities first ids ≡ ok known) × NewIdentities rest known

check_identities_complete :
    (first rest : List Fields) (ids : List String)
    → NewIdentities (first ++ rest) ids
    → Checked first ids rest
unfolding check_identities Checked
check_identities_complete [] rest ids n = (ids, refl, n)
check_identities_complete (row ∷ first) rest ids n =
    seen (row_identity row) n (λ k m. check_identities_complete first rest k m)
  where
    seen :
        (i : Identity)
        → NewIdentity i ids (NewIdentities (first ++ rest))
        → ((k : List String)
            → NewIdentities (first ++ rest) k
            → (known : List String) × (check_identities first k ≡ ok known)
              × NewIdentities rest known)
        → (known : List String) × ((see i ids >>= λ k. check_identities first k) ≡ ok known)
          × NewIdentities rest known
    seen absent n ih = ih ids n
    seen invalid n ih = elim n [ ]
    seen (named id) (new, n) ih = rw (not_elem id ids new) (ih (id ∷ ids) n)

next_path_complete :
    (normalize : String → Result String (Option String)) (path : String) (seen : List String)
    (url : String)
    → normalize path ≡ ok (some url)
    → (url == "") ≡ false
    → ¬ In url seen
    → next_path normalize path seen ≡ ok url
unfolding next_path
next_path_complete normalize path seen url e f new = rw e (rw f (rw (not_elem url seen new) refl))

not_later : (a b : ℕ) → b ≤ a → ltb a b ≡ false
not_later a b h = ground arith

accept_page_complete :
    (max_rows : ℕ) (page : Json) (rows : List Fields) (ids : List String) (first : List Fields)
    (known : List String)
    → page_rows page ≡ some first
    → length rows + length first ≤ max_rows
    → check_identities first ids ≡ ok known
    → accept_page max_rows (ok page) rows ids ≡ ok (first, known, page_next page)
unfolding accept_page
accept_page_complete max_rows page rows ids first known listed fits checked =
    rw listed (rw (not_later _ _ fits) (rw checked refl))

module _ {S : Type 0} (fetch_page : String → S → Result String Json × S)
    (normalize : String → Result String (Option String)) (max_rows : ℕ) where
  collect_complete :
      (pages : ℕ) (urls : List String) (path : String) (rows rest : List Fields)
      (seen ids : List String) (s s' : S)
      → Inventory fetch_page normalize urls path s rest s'
      → Distinct urls
      → All (λ u. ¬ In u seen) urls
      → length urls ≤ pages
      → length rows + length rest ≤ max_rows
      → NewIdentities rest ids
      → collect fetch_page normalize max_rows pages path rows seen ids s ≡ (ok (rows ++ rest), s')
  unfolding collect Checked
  collect_complete pages [] path rows rest seen ids s s' i d u short small n = elim i [ ]
  collect_complete zero (url ∷ urls) path rows rest seen ids s s' i d u short small n =
      absurd (omega arith)
  collect_complete (suc pages) (url ∷ []) path rows rest seen ids s s' (page, f, last) d u short
        small n =
      let (known, checked, _) = check_identities_complete rest [] ids (rw append-nil n) in
      let came : (fetch_page url s).0 ≡ ok page =
        ap (λ (t : Result String Json × S). t.0) f.fetched in
      let after : (fetch_page url s).1 ≡ s' = ap (λ (t : Result String Json × S). t.1) f.fetched in
      rw
        (
          next_path_complete normalize path seen url f.normal f.full u.0,
          came,
          accept_page_complete max_rows page rows ids rest known f.listed small checked,
          last,
          collect,
        )
        (ap (λ t. (ok (rows ++ rest), t)) after)
  collect_complete (suc pages) (url ∷ v ∷ urls) path rows rest seen ids s s'
        (page, mid, first, others, next, f, named_next, i, whole) d u short small n =
      let n' = rw whole at n in
      let (known, checked, later) = check_identities_complete first others ids n' in
      let came : (fetch_page url s).0 ≡ ok page =
        ap (λ (t : Result String Json × S). t.0) f.fetched in
      let after : (fetch_page url s).1 ≡ mid = ap (λ (t : Result String Json × S). t.1) f.fetched in
      let size : length rest ≡ length first + length others =
        ap length whole ∙ length-append first others in
      let ih =
        collect_complete pages (v ∷ urls) next (rows ++ first) others (url ∷ seen) known mid s' i
          d.1 (fresher (v ∷ urls) d.0 u.1) (omega arith)
          (omega (arith, size, length-append rows first)) later in
      rw
        (
          next_path_complete normalize path seen url f.normal f.full u.0,
          came,
          accept_page_complete max_rows page rows ids first known f.listed (omega (arith, size))
              checked,
          named_next,
          after,
          collect,
        )
        (ih
          ∙ ap (λ r. (ok r, s')) (append_assoc rows first others ∙ ap (λ r. rows ++ r) (sym whole)))
    where
      fresher :
          (us : List String)
          → ¬ In url us
          → All (λ w. ¬ In w seen) us
          → All (λ w. ¬ In w (url ∷ seen)) us
      fresher [] h a = tt
      fresher (w ∷ us) h (a, as_) =
          (λ m. elim m [ inl e ↦ h (inl (sym e)) | inr k ↦ a k ], fresher us (λ m. h (inr m)) as_)

-- The rows are returned exactly when the pages from `path` on, each at a URL of its own and at most
-- `max_pages` of them, hold these rows, at most `max_rows`, the last page names no next, and the
-- identities of the rows are texts, not empty, and distinct.
pub collect_admin_rows-eq-ok_iff :
    {S : Type 0} (fetch_page : String → S → Result String Json × S)
    (normalize : String → Result String (Option String)) (max_rows max_pages : ℕ) (path : String)
    (s : S) (out : List Fields) (s' : S)
    → (collect_admin_rows fetch_page normalize max_rows max_pages path s ≡ (ok out, s')) ↔ (
        (urls : List String) × Inventory fetch_page normalize urls path s out s'
        × Distinct urls
        × (length urls ≤ max_pages)
        × (length out ≤ max_rows)
        × NewIdentities out [])
unfolding collect_admin_rows
collect_admin_rows-eq-ok_iff fetch_page normalize max_rows max_pages path s out s' = (
  λ h.
      let f = collect_sound fetch_page normalize max_rows max_pages path [] [] [] s out s' h in
      let same = f.returned in
      (
        f.urls,
        rw same f.inventory,
        f.distinct,
        f.short,
        rw same (omega (arith, f.small)),
        rw same f.new,
      ),
  λ w.
      collect_complete fetch_page normalize max_rows max_pages w.0 path [] out [] [] s s' w.1 w.2
        (unseen w.0) w.3 (omega (arith, w.4)) w.5,
)
  where
    unseen : (us : List String) → All (λ u. ¬ In u []) us
    unseen [] = tt
    unseen (u ∷ us) = ((λ m. m), unseen us)
