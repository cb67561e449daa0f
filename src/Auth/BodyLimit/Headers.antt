-- ===== src/Auth/BodyLimit/Headers.antt =====
-- What the checks on the headers let through, said of the headers as they arrive.
use mathlib.Core.List.{append_assoc, append-nil}
use kong.Base.{
  ℕ, ◌≤◌, List, [], ◌∷◌, ◌++◌, Bool, true, false, ◌≡◌, ◌≢◌, ◌↔◌, refl, sym, ◌∙◌, arith, any, Option,
  none, some, inl, inr, Bool-cases, if◌then◌else◌, ◌==◌,
}
use kong.Base.Text.{codes}
use kong.Base.Bytes.{Bytes, bytes_beq, bytes_eq, bytes_beq_iff, lower}
use kong.Auth.BodyLimit.{
  Outcome, append_value, group, get_values, coded, all_digits, declared_length, check_lengths,
  too_long, check_headers,
}

-- the values of the headers of one name, in order, whatever the case of the name
abbrev pub values : Bytes → List (Bytes × Bytes) → List Bytes
values name [] = []
values name ((n, value) ∷ headers) =
    let rest = values name headers in if lower n == name then value ∷ rest else rest

get_values-append_value :
    (k name value : Bytes) (grouped : List (Bytes × List Bytes))
    → get_values k (append_value name value grouped)
      ≡ (if name == k then get_values k grouped ++ value ∷ [] else get_values k grouped)
unfolding get_values append_value
get_values-append_value k name value [] = ground (arith, bytes_beq_iff name k)
get_values-append_value k name value ((key, vs) ∷ rest) = ground (
  arith,
  bytes_beq_iff name k,
  bytes_beq_iff key name,
  bytes_beq_iff key k,
  get_values-append_value k name value rest,
)

-- The grouped headers hold, under each name, the values of that name.
get_values-group :
    (k : Bytes) (headers : List (Bytes × Bytes)) (grouped : List (Bytes × List Bytes))
    → get_values k (group grouped headers) ≡ get_values k grouped ++ values k headers
unfolding group
get_values-group k [] grouped = sym (append-nil _)
get_values-group k ((n, value) ∷ headers) grouped =
    get_values-group k headers (append_value (lower n) value grouped)
    ∙ rw get_values-append_value (elim (Bool-cases (bytes_beq (lower n) k)) [
      | inl same ↦ rw same (append_assoc (get_values k grouped) (value ∷ []) (values k headers))
      | inr other ↦ rw other refl
    ])

some-ne-none : {o : Outcome} → ◌≢◌ {A = Option Outcome} (some o) none
some-ne-none h = cc

-- a declared length that the middleware accepts
abbrev pub Admits : ℕ → List Bytes → Type 0
Admits limit [] = Unit
Admits limit (value ∷ []) =
    (all_digits value ≡ true) × (n : ℕ) × (declared_length value ≡ some n) × (n ≤ limit)
Admits limit (value ∷ second ∷ more) = ⊥

too_long_iff :
    (limit : ℕ) (declared : Option ℕ)
    → (too_long limit declared ≡ none) ↔ ((n : ℕ) × (declared ≡ some n) × (n ≤ limit))
too_long_iff limit none = (λ h. cc, λ w. cc (w.1))
too_long_iff limit (some n) = (λ h. (n, refl, ground arith), λ w. ground (arith, w.1, w.2))

check_lengths_iff :
    (limit : ℕ) (lengths : List Bytes) → (check_lengths limit lengths ≡ none) ↔ Admits limit lengths
check_lengths_iff limit [] = (λ h. tt, λ h. refl)
check_lengths_iff limit (value ∷ []) = (
  λ h. elim (Bool-cases (all_digits value)) [
    | inl d ↦
        let (n, e, fits) = (too_long_iff limit (declared_length value)).0 (rw d at h) in
        (d, n, e, fits)
    | inr d ↦ absurd (some-ne-none (rw d at h))
  ],
  λ w. rw (w.0) ((too_long_iff limit (declared_length value)).1 (w.1, w.2, w.3)),
)
check_lengths_iff limit (value ∷ second ∷ more) = (λ h. cc, λ h. elim h [ ])

stop_iff :
    (b : Bool) (o : Outcome) (rest : Option Outcome)
    → ((if b then some o else rest) ≡ none) ↔ ((b ≡ false) × (rest ≡ none))
stop_iff true o rest = (λ h. absurd (some-ne-none h), λ w. cc (w.0))
stop_iff false o rest = (λ h. (refl, h), λ w. w.1)

-- The headers pass exactly when no value of Content-Encoding is a coding other than identity, and
-- Content-Length stands at most once, as digits of a number within the limit; a name is read in
-- any case.
pub check_headers_iff :
    (limit : ℕ) (headers : List (Bytes × Bytes))
    → (check_headers limit headers ≡ none) ↔ (
        (any coded (values (codes "content-encoding") headers) ≡ false)
        × Admits limit (values (codes "content-length") headers))
unfolding check_headers
check_headers_iff limit headers =
    rw
      (
        get_values-group (codes "content-encoding") headers [],
        get_values-group (codes "content-length") headers [],
      )
      (
        λ h.
            let (plain, passes) = (stop_iff _ _ _).0 h in
            (plain, (check_lengths_iff limit _).0 passes),
        λ w. (stop_iff _ _ _).1 (w.0, (check_lengths_iff limit _).1 w.1),
      )
