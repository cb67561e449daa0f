-- ===== src/Standby/Drained.antt =====
-- rollback_kong_standby.py: its loops end, and they end with nothing listed.
use kong.Base.{
  none, ℕ, zero, suc, ◌+◌, ◌<◌, ◌≤◌, String, List, [], ◌∷◌, ◌++◌, Bool, true, false, not, ◌&&◌,
  ◌||◌, Result, ok, ◌≡◌, ◌≢◌, ◌⊎◌, inl, inr, refl, sym, subst, ap, ◌∙◌, arith, length, elem,
  elem_iff, distinct, distinct_sound, In, In-append_cases, Distinct, Distinct-append, length_bound,
  length-append, and_true, eq-false_of_not, ◌==◌, nat_eq, string_eq, nat_beq_iff, >>=-eq-ok,
  >>-eq-ok, ok_injective, false≢true,
}
use kong.Base.Json.{Json}
use kong.Admin.Program.{
  Program, pure, branch, for_each, run->>=-ok, run-pure-ok, Keeps, run->>_ok, Keeps->>=, Keeps->>,
  Keeps-pure, Keeps-branch, Keeps-for_each,
}
use kong.Standby.{Admin}
use kong.Standby.Rollback.{
  identifiers_of, meets, page_identifiers, is_none, first_page, delete_entity, drain, drain_all,
  rollback,
}

-- a branch that returned
branch-cases :
    {S A : Type 0} (c : Bool) (this that : Program S A) (s : S) {r : Result String A × S}
    → branch c this that s ≡ r
    → ((c ≡ true) × (this s ≡ r)) ⊎ ((c ≡ false) × (that s ≡ r))
unfolding branch
branch-cases true this that s h = inl (refl, h)
branch-cases false this that s h = inr (refl, h)

-- no identity was deleted before
meets_none :
    (deleted ids : List String)
    → meets deleted ids ≡ false
    → (id : String) → In id ids
    → ¬ In id deleted
meets_none deleted [] h id m before = absurd m
meets_none deleted (x ∷ ids) h id m before = elim m [
  | inl same ↦
      or_none (elem x deleted) (meets deleted ids) h
        ((elem_iff x deleted).1 (subst (λ v. In v deleted) same before))
  | inr later ↦
      meets_none deleted ids (or_last (elem x deleted) (meets deleted ids) h) id later before
]
  where
    or_none : (a b : Bool) → (a || b) ≡ false → a ≢ true
    or_none false b h e = cc
    or_none true b h e = cc

    or_last : (a b : Bool) → (a || b) ≡ false → b ≡ false
    or_last false b h = h
    or_last true b h = cc

-- the identities of a page: all of them new, none twice, and at least one
page_identifiers-cases :
    (rows : List Json) (deleted ids : List String)
    → page_identifiers rows deleted ≡ ok ids
    → (identifiers_of rows ≡ ok ids)
      × (length ids ≡ length rows)
      × Distinct ids
      × ((id : String) → In id ids → ¬ In id deleted)
unfolding page_identifiers
page_identifiers-cases rows deleted ids h =
    let (found, e, h1) = >>=-eq-ok (identifiers_of rows) _ h in
    let (sound, h2) = >>-eq-ok (length found == length rows && distinct found) _ _ h1 in
    let (apart, h3) = >>-eq-ok (not (meets deleted found)) _ (ok found) h2 in
    let same = ok_injective h3 in
    let (as_many, once) = and_true _ _ sound in
    subst
      (λ v.
        (identifiers_of rows ≡ ok v)
        × (length v ≡ length rows)
        × Distinct v
        × ((id : String) → In id v → ¬ In id deleted))
      same
      (
        e,
        (nat_beq_iff _ _).0 as_many,
        distinct_sound found once,
        meets_none deleted found (eq-false_of_not _ apart),
      )

is_none-true : (rows : List Json) → is_none rows ≡ true → rows ≡ []
is_none-true [] h = refl
is_none-true (row ∷ rows) h = cc

is_none-false : (rows : List Json) → is_none rows ≡ false → 1 ≤ length rows
is_none-false [] h = cc
is_none-false (row ∷ rows) h = omega arith

module _ {S : Type 0} (admin : Admin S) where
  -- a round of the loop that returned: nothing is listed, or another round ran
  drain-cases :
      (fuel : ℕ) (collection : String) (deleted : List String) (s s' : S) (b : Bool)
      → drain admin (suc fuel) collection deleted s ≡ (ok b, s')
      → ((b ≡ true) × (first_page admin collection s ≡ (ok [], s')))
        ⊎ ((rows : List Json) × (ids : List String) × (mid : S) × (next : S) × (first_page admin
                collection s
              ≡ (ok rows, mid))
            × (1 ≤ length rows)
            × (page_identifiers rows deleted ≡ ok ids)
            × (drain admin fuel collection (ids ++ deleted) next ≡ (ok b, s')))
  unfolding drain
  drain-cases fuel collection deleted s s' b h =
      let (rows, mid, e, h1) = run->>=-ok (first_page admin collection) _ s h in
      elim (branch-cases (is_none rows) _ _ mid h1) [
        | inl (empty, h2) ↦
            let (b_true, there) = run-pure-ok (ok true) mid h2 in
            inl (
              sym (ok_injective b_true),
              e ∙ ap (λ v. (ok v, mid)) (is_none-true rows empty) ∙ ap (λ v. (ok [], v)) there,
            )
        | inr (full, h2) ↦
            let (ids, mid', e1, h3) = run->>=-ok (pure (page_identifiers rows deleted)) _ mid h2 in
            let (found, there) = run-pure-ok (page_identifiers rows deleted) mid e1 in
            let (next, gone, h4) =
              run->>_ok (for_each ids (delete_entity admin collection)) _ mid' h3 in
            inr (rows, ids, mid, next, e, is_none-false rows full, found, h4)
      ]

  drain_all-cases :
      (fuel : ℕ) (collection : String) (rest : List String) (s s' : S) (b : Bool)
      → drain_all admin fuel (collection ∷ rest) s ≡ (ok b, s')
      → ((mid : S) × (drain admin fuel collection [] s ≡ (ok true, mid))
          × (drain_all admin fuel rest mid ≡ (ok b, s')))
        ⊎ ((b ≡ false) × (drain admin fuel collection [] s ≡ (ok false, s')))
  unfolding drain_all
  drain_all-cases fuel collection rest s s' b h =
      let (drained, mid, e, h1) = run->>=-ok (drain admin fuel collection []) _ s h in
      elim (branch-cases drained _ _ mid h1) [
        | inl (done, h2) ↦ inl (mid, e ∙ ap (λ v. (ok v, mid)) done, h2)
        | inr (left, h2) ↦
            let (b_false, there) = run-pure-ok (ok false) mid h2 in
            inr (
              sym (ok_injective b_false),
              e ∙ ap (λ v. (ok v, mid)) left ∙ ap (λ v. (ok false, v)) there,
            )
      ]

  rollback-cases :
      (fuel : ℕ) (s s' : S) (b : Bool)
      → rollback admin fuel s ≡ (ok b, s')
      → (mid : S) × (drain_all admin fuel ("plugins" ∷ "routes" ∷ "services" ∷ []) s ≡ (ok b, mid))
  unfolding rollback
  rollback-cases fuel s s' b h =
      let all = "plugins" ∷ "routes" ∷ "services" ∷ [] in
      let (drained, mid, e, h1) = run->>=-ok (drain_all admin fuel all) _ s h in
      elim (branch-cases drained _ _ mid h1) [
        | inl (done, h2) ↦
            let (next, checked, h3) = run->>_ok admin.confirm_unchanged _ mid h2 in
            let (b_true, there) = run-pure-ok (ok true) next h3 in
            (mid, e ∙ ap (λ v. (ok v, mid)) (done ∙ ok_injective b_true))
        | inr (left, h2) ↦
            let (b_false, there) = run-pure-ok (ok false) mid h2 in
            (mid, e ∙ ap (λ v. (ok v, mid)) (left ∙ ok_injective b_false))
      ]

  -- nothing of the collection is listed with the tag
  pub record IsEmpty (collection : String) (s : S) : Type 0 where
    pub lists_none : (first_page admin collection s).0 ≡ ok []

  module _
      (quiet : (collection method path : String)
        → (method ≡ "GET") ⊎ (method ≡ "DELETE")
        → Keeps (IsEmpty collection) (admin.send method path none))
      (confirms : (collection : String) → Keeps (IsEmpty collection) admin.confirm_unchanged) where
    first_page-Keeps :
        (collection other : String) → Keeps (IsEmpty collection) (first_page admin other)
    unfolding first_page
    first_page-Keeps collection other =
        Keeps->>= (quiet collection "GET" _ (inl refl)) (λ response. Keeps-pure _)

    delete_entity-Keeps :
        (collection other identifier : String)
        → Keeps (IsEmpty collection) (delete_entity admin other identifier)
    unfolding delete_entity
    delete_entity-Keeps collection other identifier =
        Keeps->>= (quiet collection "DELETE" _ (inr refl)) (λ answer. Keeps-pure _)

    drain-Keeps :
        (collection : String) (fuel : ℕ) (other : String) (deleted : List String)
        → Keeps (IsEmpty collection) (drain admin fuel other deleted)
    unfolding drain
    drain-Keeps collection zero other deleted = Keeps-pure _
    drain-Keeps collection (suc fuel) other deleted =
        Keeps->>= (first_page-Keeps collection other) (λ rows.
          Keeps-branch (is_none rows) (Keeps-pure _) (
            Keeps->>= (Keeps-pure _) (λ identifiers.
              Keeps->> (Keeps-for_each identifiers (delete_entity-Keeps collection other))
                (drain-Keeps collection fuel other (identifiers ++ deleted)))))

    drain_all-Keeps :
        (collection : String) (fuel : ℕ) (others : List String)
        → Keeps (IsEmpty collection) (drain_all admin fuel others)
    unfolding drain_all
    drain_all-Keeps collection fuel [] = Keeps-pure _
    drain_all-Keeps collection fuel (other ∷ others) =
        Keeps->>= (drain-Keeps collection fuel other [])
          (λ drained. Keeps-branch drained (drain_all-Keeps collection fuel others) (Keeps-pure _))

    -- A loop that ends well leaves nothing listed.
    drain-IsEmpty :
        (fuel : ℕ) (collection : String) (deleted : List String) (s s' : S)
        → drain admin fuel collection deleted s ≡ (ok true, s')
        → IsEmpty collection s'
    unfolding drain
    drain-IsEmpty zero collection deleted s s' h =
        let (false_true, there) = run-pure-ok (ok false) s h in
        absurd (false≢true (ok_injective false_true))
    drain-IsEmpty (suc fuel) collection deleted s s' h =
        elim (drain-cases fuel collection deleted s s' true h) [
          | inl (done, e) ↦
              let listed : IsEmpty collection s = record { lists_none = ap (λ r. r.0) e } in
              subst (IsEmpty collection) (ap (λ r. r.1) e)
                ((first_page-Keeps collection collection).after s listed)
          | inr (rows, ids, mid, next, e, full, found, again) ↦
              drain-IsEmpty fuel collection (ids ++ deleted) next s' again
        ]

    drain_all-IsEmpty :
        (fuel : ℕ) (collections : List String) (s s' : S)
        → drain_all admin fuel collections s ≡ (ok true, s')
        → (collection : String) → In collection collections
        → IsEmpty collection s'
    drain_all-IsEmpty fuel [] s s' h collection m = absurd m
    drain_all-IsEmpty fuel (first ∷ rest) s s' h collection m =
        elim (drain_all-cases fuel first rest s s' true h) [
          | inr (left, e) ↦ absurd (false≢true (sym left))
          | inl (mid, e, h1) ↦ elim m [
            | inr later ↦ drain_all-IsEmpty fuel rest mid s' h1 collection later
            | inl same ↦
                let drained = drain-IsEmpty fuel first [] s mid e in
                subst (IsEmpty collection) (ap (λ r. r.1) h1) (
                  (drain_all-Keeps collection fuel rest).after mid
                    (subst (λ c. IsEmpty c mid) (sym same) drained))
          ]
        ]

    -- Where a collection of which nothing is listed with the tag stays so under every reading, every
    -- deletion and the last check of the container: when the rollback has ended, nothing is listed
    -- with the tag of plugins, routes and services, in the state that it leaves.
    pub rollback_leaves_nothing :
        (fuel : ℕ) (s s' : S)
        → rollback admin fuel s ≡ (ok true, s')
        → (collection : String) → In collection ("plugins" ∷ "routes" ∷ "services" ∷ [])
        → IsEmpty collection s'
    unfolding rollback
    rollback_leaves_nothing fuel s s' h collection m =
        let all = "plugins" ∷ "routes" ∷ "services" ∷ [] in
        let (drained, mid, e, h1) = run->>=-ok (drain_all admin fuel all) _ s h in
        elim (branch-cases drained _ _ mid h1) [
          | inr (left, h2) ↦ absurd (false≢true (ok_injective (run-pure-ok (ok false) mid h2).0))
          | inl (done, h2) ↦
              let empty =
                drain_all-IsEmpty fuel all s mid (e ∙ ap (λ v. (ok v, mid)) done) collection m in
              subst (IsEmpty collection) (ap (λ r. r.1) h2)
                ((Keeps->> (confirms collection) (Keeps-pure (ok true))).after mid empty)
        ]

  module _ (universe : List String)
      (lists : (collection : String) (s s' : S) (rows : List Json) (ids : List String)
        → first_page admin collection s ≡ (ok rows, s')
        → identifiers_of rows ≡ ok ids
        → (id : String) → In id ids
        → In id universe) where
    drain_ends :
        (fuel : ℕ) (collection : String) (deleted : List String) (s s' : S)
        → Distinct deleted
        → ((id : String) → In id deleted → In id universe)
        → length universe < fuel + length deleted
        → drain admin fuel collection deleted s ≢ (ok false, s')
    drain_ends zero collection deleted s s' once inside enough h =
        let bound = length_bound deleted universe once inside in omega (arith, bound, enough)
    drain_ends (suc fuel) collection deleted s s' once inside enough h =
        elim (drain-cases fuel collection deleted s s' false h) [
          | inl (done, e) ↦ false≢true done
          | inr (rows, ids, mid, next, e, full, found, again) ↦
              let (listed, as_many, new, apart) = page_identifiers-cases rows deleted ids found in
              drain_ends fuel collection (ids ++ deleted) next s'
                (Distinct-append ids deleted new once apart)
                (λ id m. elim (In-append_cases id ids deleted m) [
                  | inl a ↦ lists collection s mid rows ids e listed id a
                  | inr b ↦ inside id b
                ])
                (omega (arith, as_many, length-append ids deleted)) again
        ]

    drain_all_ends :
        (fuel : ℕ) (collections : List String) (s s' : S)
        → length universe < fuel
        → drain_all admin fuel collections s ≢ (ok false, s')
    unfolding drain_all
    drain_all_ends fuel [] s s' enough h =
        let (true_false, there) = run-pure-ok (ok true) s h in
        false≢true (sym (ok_injective true_false))
    drain_all_ends fuel (collection ∷ rest) s s' enough h =
        elim (drain_all-cases fuel collection rest s s' false h) [
          | inl (mid, e, h1) ↦ drain_all_ends fuel rest mid s' enough h1
          | inr (left, e) ↦
              drain_ends fuel collection [] s s' tt (λ id m. absurd m) (omega (arith, enough)) e
        ]

    -- If every identity that Kong ever lists is one of a list, the rollback ends, or raises, within
    -- one round of each loop more than the list is long.
    pub rollback_ends :
        (fuel : ℕ) (s s' : S) → length universe < fuel → rollback admin fuel s ≢ (ok false, s')
    rollback_ends fuel s s' enough h =
        let (mid, e) = rollback-cases fuel s s' false h in
        drain_all_ends fuel ("plugins" ∷ "routes" ∷ "services" ∷ []) s mid enough e
