-- ===== src/Admin/Channel/Paths.antt =====
-- What a reference that the Admin channel accepts may be.
use kong.Base.{
  String, code, ◌∷◌, ◌++◌, Bool, true, false, not, ◌||◌, some, ◌≡◌, ◌⊎◌, inl, inr, refl, sym, ◌∙◌,
  ap, ok, ◌==◌, nat_eq, string_eq, err-ne-ok, ok_injective, some_injective, none-ne-some,
  Bool-cases, Option-cases, nat_beq_iff, >>-eq-ok, any,
}
use kong.Base.Text.{codes, split}
use kong.Admin.Channel.{
  Codecs, matches_path, is_hidden, is_dots, is_control, validate_admin_path, admin_origin, after,
  starts_text, normalize_admin_reference,
}

-- what `after` leaves is the rest of the text
after-eq-some : (p s rest : String) → after p s ≡ some rest → codes s ≡ codes p ++ codes rest
after-eq-some String.[] s rest h = ap codes (some_injective h)
after-eq-some (String.◌∷◌ c p) String.[] rest h = absurd (none-ne-some h)
after-eq-some (String.◌∷◌ c p) (String.◌∷◌ d s) rest h = elim (Bool-cases (code c == code d)) [
  | inl e ↦ rw ((nat_beq_iff _ _).0 e) (ap (◌∷◌ (code d)) (after-eq-some p s rest (rw e at h)))
  | inr e ↦ absurd (none-ne-some (rw e at h))
]

-- A path that is accepted is bounded, relative to the origin, and leaves no directory.
pub record IsSafe (codecs : Codecs) (path : String) : Type 0 where
  pub bounded : matches_path (codes path) ≡ true
  pub relative : is_hidden codecs path ≡ false
  pub straight : any is_dots (split b'/' (codecs.unquote (codecs.path_of path))) ≡ false
  pub printable : any is_control (codes (codecs.unquote (codecs.path_of path))) ≡ false

validate_admin_path-IsSafe :
    (codecs : Codecs) (path out : String)
    → validate_admin_path codecs path ≡ ok out
    → (out ≡ path) × IsSafe codecs path
unfolding validate_admin_path
validate_admin_path-IsSafe codecs path out h =
    let decoded = codecs.unquote (codecs.path_of path) in
    let (bounded, h1) = >>-eq-ok (matches_path (codes path)) "unsafe Kong Admin path" _ h in
    let (plain, h2) =
      >>-eq-ok
        (not (
          is_hidden codecs path
          || any is_dots (split b'/' decoded)
          || any is_control (codes decoded)))
        "unsafe Kong Admin path" _ h1 in
    (
      sym (ok_injective h2),
      record {
        bounded = bounded;
        relative =
            or_none (is_hidden codecs path) (any is_dots (split b'/' decoded))
              (any is_control (codes decoded)) plain (λ x y z. x);
        straight =
            or_none (is_hidden codecs path) (any is_dots (split b'/' decoded))
              (any is_control (codes decoded)) plain (λ x y z. y);
        printable =
            or_none (is_hidden codecs path) (any is_dots (split b'/' decoded))
              (any is_control (codes decoded)) plain (λ x y z. z);
      },
    )
  where
    or_none :
        {A : Type 0} (a b c : Bool)
        → not (a || b || c) ≡ true
        → (a ≡ false → b ≡ false → c ≡ false → A)
        → A
    or_none false false false h k = k refl refl refl
    or_none false false true h k = cc
    or_none false true c h k = cc
    or_none true b c h k = cc

-- A reference that is accepted is a safe path, or the origin of the Admin API followed by one; the
-- path is what the channel requests.
pub normalize_admin_reference-IsSafe :
    (codecs : Codecs) (value path : String)
    → normalize_admin_reference codecs value ≡ ok path
    → IsSafe codecs path × ((value ≡ path) ⊎ (codes value ≡ codes admin_origin ++ codes path))
unfolding normalize_admin_reference
normalize_admin_reference-IsSafe codecs value path h =
    elim (Bool-cases (starts_text "http://127.0.0.1:8001/" value)) [
      | inr other ↦
          elim (Bool-cases (starts_text "http://" value || starts_text "https://" value)) [
            | inl absolute ↦ absurd (err-ne-ok (rw (other, absolute) at h))
            | inr relative ↦
                let (same, safe) =
                  validate_admin_path-IsSafe codecs value path (rw (other, relative) at h) in
                (rw same safe, inl (sym same))
          ]
      | inl local ↦ elim (Option-cases (after admin_origin value)) [
        | inl absent ↦ absurd (err-ne-ok (rw (local, absent) at h))
        | inr (rest, found) ↦
            let (same, safe) =
              validate_admin_path-IsSafe codecs rest path (rw (local, found) at h) in
            (
              rw same safe,
              inr (
                  after-eq-some admin_origin value rest found
                  ∙ ap (λ t. codes admin_origin ++ codes t) (sym same)),
            )
      ]
    ]
