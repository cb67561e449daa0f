-- ===== src/Admin/Rows/Rounds.antt =====
-- What one round of the loop of `collect_admin_rows` establishes.
use kong.Base.{
  ℕ, ◌+◌, ◌≤◌, String, List, [], ◌∷◌, ◌++◌, false, not, Option, none, some, Result, ok, ◌>>=◌, ◌≡◌,
  ◌⊎◌, inl, inr, refl, ◌∙◌, ap, arith, ltb, length, elem, elem_no, In, ◌==◌, string_eq,
  eq-false_of_not, >>-eq-ok, >>=-eq-ok, ok_injective, err-ne-ok, Bool-cases,
}
use kong.Base.Json.{Json, Fields}
use kong.Admin.Rows.{
  page_rows, page_next, Next, done, more, unsafe, Identity, absent, named, invalid, row_identity,
  check_identities, see, usable, or_raise, next_path, accept_page,
}
use kong.Admin.Rows.Spec.{NewIdentity, NewIdentities}

pub check_identities_sound :
    (rows : List Fields) (known known' : List String)
    → check_identities rows known ≡ ok known'
    → NewIdentities rows known
unfolding check_identities
check_identities_sound [] known known' h = tt
check_identities_sound (row ∷ rows) known known' h =
    seen (row_identity row) h (check_identities_sound rows)
  where
    seen :
        (i : Identity)
        → (see i known >>= λ k. check_identities rows k) ≡ ok known'
        → ((k k' : List String) → check_identities rows k ≡ ok k' → NewIdentities rows k)
        → NewIdentity i known (NewIdentities rows)
    seen absent h ih = ih known known' h
    seen invalid h ih = absurd (err-ne-ok h)
    seen (named id) h ih = elim (Bool-cases (elem id known)) [
      | inl old ↦ absurd (err-ne-ok (rw old at h))
      | inr new ↦ (elem_no id known new, ih (id ∷ known) known' (rw new at h))
    ]

pub or_raise-eq-ok :
    {A : Type 0} (o : Option A) (message : String) {a : A} → or_raise o message ≡ ok a → o ≡ some a
or_raise-eq-ok none message h = absurd (err-ne-ok h)
or_raise-eq-ok (some a) message h = ap some (ok_injective h)

pub not_later : (a b : ℕ) → ltb a b ≡ false → b ≤ a
not_later a b h = ground arith

pub next_path_sound :
    (normalize : String → Result String (Option String)) (path : String) (seen : List String)
    (url : String)
    → next_path normalize path seen ≡ ok url
    → (normalize path ≡ ok (some url)) × ((url == "") ≡ false) × (¬ In url seen)
unfolding next_path
next_path_sound normalize path seen url h =
    let (candidate, e, h1) = >>=-eq-ok (normalize path) _ h in
    let (p, used, h2) = >>=-eq-ok (usable candidate) _ h1 in
    let (new, h3) = >>-eq-ok (not (elem p seen)) "Kong pagination loop detected" _ h2 in
    let (c, f) = usable_ok candidate p used in
    let same : p ≡ url = ok_injective h3 in
    (rw (← same) (e ∙ ap ok c), rw (← same) f, rw (← same) (elem_no p seen (eq-false_of_not _ new)))
  where
    usable_ok :
        (o : Option String) (p : String) → usable o ≡ ok p → (o ≡ some p) × ((p == "") ≡ false)
    usable_ok none p h = absurd (err-ne-ok h)
    usable_ok (some q) p h = ground arith

pub Next-cases : (n : Next) → (n ≡ done) ⊎ (((p : String) × (n ≡ more p)) ⊎ (n ≡ unsafe))
Next-cases done = inl refl
Next-cases (more p) = inr (inl (p, refl))
Next-cases unsafe = inr (inr refl)

-- What a page that is accepted gives.
pub record Accepted (max_rows : ℕ) (fetched : Result String Json) (rows : List Fields)
    (ids : List String) (first : List Fields) (known : List String) (next : Next) : Type 0 where
  pub page : Json
  pub came : fetched ≡ ok page
  pub listed : page_rows page ≡ some first
  pub fits : length rows + length first ≤ max_rows
  pub checked : check_identities first ids ≡ ok known
  pub named_next : page_next page ≡ next

pub accept_page_sound :
    (max_rows : ℕ) (fetched : Result String Json) (rows : List Fields) (ids : List String)
    (first : List Fields) (known : List String) (next : Next)
    → accept_page max_rows fetched rows ids ≡ ok (first, known, next)
    → Accepted max_rows fetched rows ids first known next
unfolding accept_page
accept_page_sound max_rows fetched rows ids first known next h =
    let (page, e, h1) = >>=-eq-ok fetched _ h in
    let (first', e1, h2) =
      >>=-eq-ok (or_raise (page_rows page) "invalid Kong collection response") _ h1 in
    let (fits, h3) =
      >>-eq-ok (not (ltb max_rows (length rows + length first')))
        "Kong collection row limit exceeded" _ h2 in
    let (known', e2, h4) = >>=-eq-ok (check_identities first' ids) _ h3 in
    let same = ok_injective h4 in
    let first_same : first' ≡ first = ap (λ (t : List Fields × List String × Next). t.0) same in
    let known_same : known' ≡ known = ap (λ (t : List Fields × List String × Next). t.1) same in
    record {
      page = page;
      came = e;
      listed = or_raise-eq-ok (page_rows page) _ e1 ∙ ap some first_same;
      fits = rw (← first_same) (not_later _ _ (eq-false_of_not _ fits));
      checked = rw (← first_same) (e2 ∙ ap ok known_same);
      named_next = ap (λ (t : List Fields × List String × Next). t.2) same;
    }

pub NewIdentities-append :
    (first rest : List Fields) (ids known : List String)
    → check_identities first ids ≡ ok known
    → NewIdentities rest known
    → NewIdentities (first ++ rest) ids
unfolding check_identities
NewIdentities-append [] rest ids known h n = rw (ok_injective h) n
NewIdentities-append (row ∷ first) rest ids known h n =
    seen (row_identity row) h (λ k e. NewIdentities-append first rest k known e n)
  where
    seen :
        (i : Identity)
        → (see i ids >>= λ k. check_identities first k) ≡ ok known
        → ((k : List String)
            → check_identities first k ≡ ok known
            → NewIdentities (first ++ rest) k)
        → NewIdentity i ids (NewIdentities (first ++ rest))
    seen absent h ih = ih ids h
    seen invalid h ih = absurd (err-ne-ok h)
    seen (named id) h ih = elim (Bool-cases (elem id ids)) [
      | inl old ↦ absurd (err-ne-ok (rw old at h))
      | inr new ↦ (elem_no id ids new, ih (id ∷ ids) (rw new at h))
    ]
