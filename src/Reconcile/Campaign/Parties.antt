-- ===== src/Reconcile/Campaign/Parties.antt =====
-- The parties of a scope.
use kong.Base.{
  String, List, [], ◌∷◌, Bool, true, false, not, ok, ◌>>=◌, length, In, ◌≡◌, ◌↔◌, inl, inr, refl,
  sym, subst, ap, ◌∙◌, >>=-eq-ok, >>-eq-ok, ok_injective, Bool-cases, ◌==◌, nat_eq, if◌then◌else◌,
}
use kong.Base.Json.{Json, null, bool, num, str, arr, obj}
use kong.Base.Values.{item, as_text, is_in}
use kong.Base.Values.Kept.{keep_if-In, In-keep_if}
use kong.Reconcile.Campaign.Manifest.{
  text_leb, insert, sorted, custom_ids, manifest_consumers, holders, authorized_parties,
}

In-insert : (x t : String) (ts : List String) → In x (t ∷ ts) → In x (insert t ts)
unfolding insert
In-insert x t [] m = m
In-insert x t (u ∷ ts) m = elim (Bool-cases (text_leb t u)) [
  | inl e ↦ rw e m
  | inr e ↦ rw e (elim m [
    | inl same ↦ inr (In-insert x t ts (inl same))
    | inr (inl same) ↦ inl same
    | inr (inr later) ↦ inr (In-insert x t ts (inr later))
  ])
]

insert-In : (x t : String) (ts : List String) → In x (insert t ts) → In x (t ∷ ts)
unfolding insert
insert-In x t [] m = m
insert-In x t (u ∷ ts) m = from (text_leb t u) (insert-In x t ts) m
  where
    from :
        (b : Bool)
        → (In x (insert t ts) → In x (t ∷ ts))
        → In x (if b then t ∷ u ∷ ts else u ∷ insert t ts)
        → In x (t ∷ u ∷ ts)
    from true again m = m
    from false again (inl same) = inr (inl same)
    from false again (inr m) = elim (again m) [ inl same ↦ inl same | inr later ↦ inr (inr later) ]

sorted_iff : (x : String) (ts : List String) → In x (sorted ts) ↔ In x ts
unfolding sorted
sorted_iff x [] = (λ m. m, λ m. m)
sorted_iff x (t ∷ ts) = (
  λ m. elim (insert-In x t (sorted ts) m) [
    | inl same ↦ inl same
    | inr later ↦ inr ((sorted_iff x ts).0 later)
  ],
  λ m.
      In-insert x t (sorted ts)
        (elim m [ inl same ↦ inl same | inr later ↦ inr ((sorted_iff x ts).1 later) ]),
)

as_text-str : (value : Json) (text : String) → as_text value ≡ ok text → value ≡ str text
as_text-str (str t) text h = ap str (ok_injective h)
as_text-str null text h = cc
as_text-str (bool b) text h = cc
as_text-str (num n) text h = cc
as_text-str (arr xs) text h = cc
as_text-str (obj d) text h = cc

str_injective : {s t : String} → ◌≡◌ {A = Json} (str s) (str t) → s ≡ t
str_injective h = cc

-- one of the consumers has the identity
abbrev HasIdentity : String → List Json → Type 0
HasIdentity party consumers =
    (consumer : Json) × In consumer consumers × (item "custom_id" consumer ≡ ok (str party))

custom_ids_iff :
    (party : String) (consumers : List Json) (ids : List String)
    → custom_ids consumers ≡ ok ids
    → In party ids ↔ HasIdentity party consumers
custom_ids_iff party [] ids h =
    (λ m. absurd (subst (In party) (sym (ok_injective h)) m), λ (consumer, m, e). absurd m)
custom_ids_iff party (first ∷ rest) ids h =
    let (value, e, h1) = >>=-eq-ok (item "custom_id" first) _ h in
    let (text, e1, h2) = >>=-eq-ok (as_text value) _ h1 in
    let (more, e2, h3) = >>=-eq-ok (custom_ids rest) _ h2 in
    let own = e ∙ ap ok (as_text-str value text e1) in
    let again = custom_ids_iff party rest more e2 in
    (
      λ m. elim (subst (In party) (sym (ok_injective h3)) m) [
        | inl same ↦ (first, inl refl, own ∙ ap (λ t. ok (str t)) (sym same))
        | inr later ↦ let (consumer, there, named) = again.0 later in (consumer, inr there, named)
      ],
      λ (consumer, there, named). subst (In party) (ok_injective h3) (elim there [
        | inl same ↦
            inl (str_injective (ok_injective (sym named ∙ ap (item "custom_id") same ∙ own)))
        | inr later ↦ inr (again.1 (consumer, later, named))
      ]),
    )

-- The parties of a scope are the identities of the consumers of the manifest that hold it, and no
-- others.
pub authorized_parties_iff :
    (manifest required_scope : Json) (consumers : List Json) (parties : List String)
    → manifest_consumers manifest ≡ ok consumers
    → authorized_parties manifest required_scope ≡ ok parties
    → (party : String)
    → In party parties ↔ (
        (consumer : Json) × In consumer consumers
        × (item "custom_id" consumer ≡ ok (str party))
        × ((item "scopes" consumer >>= is_in required_scope) ≡ ok true))
unfolding authorized_parties holders
authorized_parties_iff manifest required_scope consumers parties read h party =
    let (listed, e, h1) = >>=-eq-ok (manifest_consumers manifest) _ h in
    let same = ok_injective (sym read ∙ e) in
    let (held, e1, h2) = >>=-eq-ok (holders required_scope listed) _ h1 in
    let (ids, e2, h3) = >>=-eq-ok (custom_ids held) _ h2 in
    let (some_party, h4) = >>-eq-ok (not (length ids == 0)) _ (ok (sorted ids)) h3 in
    let by_sort = sorted_iff party ids in
    let by_id = custom_ids_iff party held ids e2 in
    let holds = λ (consumer : Json). item "scopes" consumer >>= is_in required_scope in
    (
      λ m.
          let (consumer, there, named) =
            by_id.0 (by_sort.0 (subst (In party) (sym (ok_injective h4)) m)) in
          let (before, granted) = keep_if-In holds listed held consumer e1 there in
          (consumer, subst (In consumer) (sym same) before, named, granted),
      λ (consumer, there, named, granted). subst (In party) (ok_injective h4) (
          by_sort.1 (
            by_id.1 (
              consumer,
              In-keep_if holds listed held consumer e1 (subst (In consumer) same there) granted,
              named,
            ))),
    )
