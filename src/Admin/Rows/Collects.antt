-- ===== src/Admin/Rows/Collects.antt =====
-- `collect_admin_rows` returns a complete inventory, within its limits.
use mathlib.Core.Path.{subst₂}
use mathlib.Core.List.{append_assoc}
use kong.Base.{
  All, ℕ, zero, suc, ◌+◌, ◌≤◌, String, List, [], ◌∷◌, ◌++◌, false, Option, some, Result, ok, err,
  ◌≡◌, ◌≢◌, inl, inr, refl, sym, ◌∙◌, ap, arith, length, length-append, In, Distinct, ◌==◌,
  string_eq, ok_injective, err-ne-ok, Result-cases,
}
use kong.Base.Json.{Json, Fields}
use kong.Admin.Rows.{Next, done, more, next_path, accept_page, collect}
use kong.Admin.Rows.Spec.{Fetches, Inventory, NewIdentities}
use kong.Admin.Rows.Rounds.{
  check_identities_sound, next_path_sound, Next-cases, accept_page_sound, NewIdentities-append,
  Accepted,
}

module _ {S : Type 0} (fetch_page : String → S → Result String Json × S)
    (normalize : String → Result String (Option String)) (max_rows : ℕ) where
  -- What a run of the loop has found, beyond the rows that it was given.
  pub record Found (pages : ℕ) (path : String) (rows : List Fields) (seen ids : List String) (s : S)
      (out : List Fields) (s' : S) : Type 0 where
    pub urls : List String
    pub rest : List Fields
    pub inventory : Inventory fetch_page normalize urls path s rest s'
    pub returned : out ≡ rows ++ rest
    pub distinct : Distinct urls
    pub unseen : All (λ u. ¬ In u seen) urls
    pub short : length urls ≤ pages
    pub small : length rows + length rest ≤ max_rows
    pub new : NewIdentities rest ids

  -- One round of the loop, up to the page that it accepted.
  record Step (path url : String) (rows first : List Fields) (seen ids known : List String)
      (s mid : S) (fetched : Result String Json) (next : Next) : Type 0 where
    start : (normalize path ≡ ok (some url)) × ((url == "") ≡ false) × (¬ In url seen)
    came : fetch_page url s ≡ (fetched, mid)
    accepted : Accepted max_rows fetched rows ids first known next

  module _ {path url : String} {rows first : List Fields} {seen ids known : List String} {s mid : S}
      {fetched : Result String Json} where
    Step-Fetches :
        {next : Next} (st : Step path url rows first seen ids known s mid fetched next)
        → Fetches fetch_page normalize path url s st.accepted.page first mid
    Step-Fetches st = record {
      normal = st.start.0;
      full = st.start.1;
      fetched = st.came ∙ ap (λ r. (r, mid)) st.accepted.came;
      listed = st.accepted.listed;
    }

    Found-last :
        (pages : ℕ)
        → Step path url rows first seen ids known s mid fetched done
        → Found (suc pages) path rows seen ids s (rows ++ first) mid
    Found-last pages st = record {
      urls = url ∷ [];
      rest = first;
      inventory = (st.accepted.page, Step-Fetches st, st.accepted.named_next);
      returned = refl;
      distinct = ((λ m. m), tt);
      unseen = (st.start.2, tt);
      short = omega arith;
      small = st.accepted.fits;
      new = check_identities_sound first ids known st.accepted.checked;
    }

    Found-more :
        (pages : ℕ) (next : String) (out : List Fields) (s' : S)
        → Step path url rows first seen ids known s mid fetched (more next)
        → Found pages next (rows ++ first) (url ∷ seen) known mid out s'
        → Found (suc pages) path rows seen ids s out s'
    Found-more pages next out s' st f = record {
      urls = url ∷ f.urls;
      rest = first ++ f.rest;
      inventory = longer f.urls f.inventory;
      returned = f.returned ∙ append_assoc rows first f.rest;
      distinct = (not_in f.urls f.unseen, f.distinct);
      unseen = (st.start.2, weaken f.urls f.unseen);
      short = omega (arith, f.short);
      small = omega (arith, f.small, length-append rows first, length-append first f.rest);
      new = NewIdentities-append first f.rest ids known st.accepted.checked f.new;
    }
      where
        longer :
            (urls : List String)
            → Inventory fetch_page normalize urls next mid f.rest s'
            → Inventory fetch_page normalize (url ∷ urls) path s (first ++ f.rest) s'
        longer [] i = elim i [ ]
        longer (u ∷ urls) i = (
          st.accepted.page,
          mid,
          first,
          f.rest,
          next,
          Step-Fetches st,
          st.accepted.named_next,
          i,
          refl,
        )

        not_in : (urls : List String) → All (λ u. ¬ In u (url ∷ seen)) urls → ¬ In url urls
        not_in [] h m = m
        not_in (u ∷ urls) (h, hs) (inl e) = h (inl (sym e))
        not_in (u ∷ urls) (h, hs) (inr m) = not_in urls hs m

        weaken :
            (urls : List String) → All (λ u. ¬ In u (url ∷ seen)) urls → All (λ u. ¬ In u seen) urls
        weaken [] h = tt
        weaken (u ∷ urls) (h, hs) = ((λ m. h (inr m)), weaken urls hs)

  not_raised :
      {message : String} {mid : S} {out : List Fields} {s' : S}
      → ◌≢◌ {A = Result String (List Fields) × S} (err message, mid) (ok out, s')
  not_raised h = err-ne-ok (ap (λ (t : Result String (List Fields) × S). t.0) h)

  pub collect_sound :
      (pages : ℕ) (path : String) (rows : List Fields) (seen ids : List String) (s : S)
      (out : List Fields) (s' : S)
      → collect fetch_page normalize max_rows pages path rows seen ids s ≡ (ok out, s')
      → Found pages path rows seen ids s out s'
  unfolding collect
  collect_sound zero path rows seen ids s out s' h =
      absurd (err-ne-ok (ap (λ (t : Result String (List Fields) × S). t.0) h))
  collect_sound (suc pages) path rows seen ids s out s' h =
      elim (Result-cases (next_path normalize path seen)) [
        | inr (message, e) ↦ absurd (not_raised (rw (e, collect) at h))
        | inl (url, e) ↦ elim (Result-cases (accept_page max_rows (fetch_page url s).0 rows ids)) [
          | inr (message, a) ↦ absurd (not_raised (rw (e, a, collect) at h))
          | inl ((first, known, next), a) ↦ elim (Next-cases next) [
            | inl d ↦
                let st : Step path url rows first seen ids known s (fetch_page url s).1
                    (fetch_page url s).0 done =
                  record {
                    start = next_path_sound normalize path seen url e;
                    came = refl;
                    accepted = accept_page_sound max_rows _ rows ids first known done (rw d at a);
                  } in
                let e2 = a ∙ ap (λ n. ok (first, known, n)) d in
                let h' : ◌≡◌ {A = Result String (List Fields) × S}
                    (ok (rows ++ first), (fetch_page url s).1) (ok out, s') =
                  rw (e, e2, collect) at h in
                let outs : rows ++ first ≡ out =
                  ok_injective (ap (λ (t : Result String (List Fields) × S). t.0) h') in
                let ends : (fetch_page url s).1 ≡ s' =
                  ap (λ (t : Result String (List Fields) × S). t.1) h' in
                subst₂ (λ o t. Found (suc pages) path rows seen ids s o t) outs ends
                  (Found-last pages st)
            | inr (inl (url', m)) ↦
                let e2 = a ∙ ap (λ n. ok (first, known, n)) m in
                Found-more pages url' out s'
                  (record {
                    start = next_path_sound normalize path seen url e;
                    came = refl;
                    accepted = accept_page_sound max_rows _ rows ids first known (more url') e2;
                  })
                  (collect_sound pages url' (rows ++ first) (url ∷ seen) known (fetch_page url s).1
                    out s' (rw (e, e2, collect) at h))
            | inr (inr u) ↦
                let e2 = a ∙ ap (λ n. ok (first, known, n)) u in
                absurd (not_raised (rw (e, e2, collect) at h))
          ]
        ]
      ]
