-- ===== src/Reconcile/ControlPlane/Approval.antt =====
-- Nothing is changed with `--apply` unless the manifest is approved for it.
use kong.Base.{
  String, Bool, true, false, Option, none, some, Result, ok, err, ◌≡◌, ◌⊎◌, inl, inr, refl, sym,
  ◌∙◌, ap, eq_iff, ◌==◌, string_eq, >>=-eq-ok, ok_injective, Result-cases, or_true,
}
use kong.Base.Json.{Json, null, bool, num, str, arr, obj, Fields, field, get}
use kong.Base.Values.{equal, get_key, get_or, get_in, is_bool, or_null}
use kong.Admin.Program.{◌>>=◌, Program, ◌>>◌, pure, refused-keeps}
use kong.Reconcile.Key.{KeyCodecs}
use kong.Reconcile.Client.{Library, Channel}
use kong.Reconcile.ControlPlane.Run.{
  Arguments, demand, both, flag_is, is_approved, check_approval, check_authority, check_spec,
  reconcile,
}

-- An approved manifest: its status is one of two, and its safety section allows reconciliation.
pub data IsApproved : Json → Type 0 where
  approved :
      (fields safety : Fields) (status : String)
      → (status ≡ "APPROVED_STAGING") ⊎ (status ≡ "APPROVED_PRODUCTION")
      → get "status" fields ≡ some (str status)
      → get "safety" fields ≡ some (obj safety)
      → get "reconciliation_apply" safety ≡ some (bool true)
      → IsApproved (obj fields)

is_approved-cases :
    (status : Json)
    → is_approved status ≡ true
    → (text : String) × (status ≡ str text)
      × ((text ≡ "APPROVED_STAGING") ⊎ (text ≡ "APPROVED_PRODUCTION"))
unfolding equal
is_approved-cases (str text) h = (
  text,
  refl,
  elim (or_true (text == "APPROVED_STAGING") (text == "APPROVED_PRODUCTION") h) [
    | inl e ↦ inl ((eq_iff text "APPROVED_STAGING").0 e)
    | inr e ↦ inr ((eq_iff text "APPROVED_PRODUCTION").0 e)
  ],
)
is_approved-cases null h = cc
is_approved-cases (bool b) h = cc
is_approved-cases (num n) h = cc
is_approved-cases (arr xs) h = cc
is_approved-cases (obj d) h = cc

-- a key that was read
get_key-str :
    (key : String) (d : Json) (text : String)
    → get_key key d ≡ ok (str text)
    → (fields : Fields) × (d ≡ obj fields) × (get key fields ≡ some (str text))
unfolding get_key
get_key-str key (obj fields) text h = (fields, refl, found (get key fields) h)
  where
    found :
        (value : Option Json)
        → ◌≡◌ {A = Result String Json} (ok (or_null value)) (ok (str text))
        → value ≡ some (str text)
    found none h = cc
    found (some value) h = ap some (ok_injective h)
get_key-str key null text h = cc
get_key-str key (bool b) text h = cc
get_key-str key (num n) text h = cc
get_key-str key (str s) text h = cc
get_key-str key (arr xs) text h = cc

is_bool-true : (value : Json) → is_bool true value ≡ true → value ≡ bool true
is_bool-true (bool b) h = ap bool h
is_bool-true null h = cc
is_bool-true (num n) h = cc
is_bool-true (str text) h = cc
is_bool-true (arr xs) h = cc
is_bool-true (obj d) h = cc

get_key-bool :
    (key : String) (d : Json)
    → get_key key d ≡ ok (bool true)
    → (fields : Fields) × (d ≡ obj fields) × (get key fields ≡ some (bool true))
unfolding get_key
get_key-bool key (obj fields) h = (fields, refl, found (get key fields) h)
  where
    found :
        (value : Option Json)
        → ◌≡◌ {A = Result String Json} (ok (or_null value)) (ok (bool true))
        → value ≡ some (bool true)
    found none h = cc
    found (some value) h = ap some (ok_injective h)
get_key-bool key null h = cc
get_key-bool key (bool b) h = cc
get_key-bool key (num n) h = cc
get_key-bool key (str s) h = cc
get_key-bool key (arr xs) h = cc

none_there :
    (inner : String) (section : Fields)
    → ◌≡◌ {A = Json} (obj Fields.end) (obj section)
    → get inner section ≡ some (bool true)
    → none ≡ some (obj section)
unfolding get
none_there inner Fields.end e h = cc
none_there inner (field key value rest) e h = cc

-- a section that was read: it is there, unless the default was taken
get_or-obj :
    (key inner : String) (fields : Fields) (found : Json) (section : Fields)
    → get_or key (obj Fields.end) (obj fields) ≡ ok found
    → found ≡ obj section
    → get inner section ≡ some (bool true)
    → get key fields ≡ some (obj section)
unfolding get_or get
get_or-obj key inner fields found section h e inside = at (get key fields) h
  where
    at :
        (value : Option Json)
        → ◌≡◌ {A = Result String Json}
            (elim value [ none ↦ ok (obj Fields.end) | some value ↦ ok value ])
            (ok found)
        → value ≡ some (obj section)
    at none h = none_there inner section (ok_injective h ∙ e) inside
    at (some value) h = ap some (ok_injective h ∙ e)

flag_is-cases :
    (spec : Json) (key : String)
    → flag_is "safety" key true spec ≡ ok true
    → (section : Fields) × (get_key "safety" spec ≡ ok (obj section))
      × (get key section ≡ some (bool true))
unfolding get_or get_key
flag_is-cases (obj fields) key h =
    let (value, e, h1) = >>=-eq-ok (get_in "safety" key (obj fields)) _ h in
    let (found, e1, e2) =
      >>=-eq-ok (get_or "safety" (obj Fields.end) (obj fields)) (get_key key) e in
    let (section, e3, e4) =
      get_key-bool key found (e2 ∙ ap ok (is_bool-true value (ok_injective h1))) in
    (section, ap (λ v. ok (or_null v)) (get_or-obj "safety" key fields found section e1 e3 e4), e4)
flag_is-cases null key h = cc
flag_is-cases (bool b) key h = cc
flag_is-cases (num n) key h = cc
flag_is-cases (str s) key h = cc
flag_is-cases (arr xs) key h = cc

get_key-obj :
    (key : String) (fields section : Fields)
    → get_key key (obj fields) ≡ ok (obj section)
    → get key fields ≡ some (obj section)
unfolding get_key
get_key-obj key fields section h = found (get key fields) h
  where
    found :
        (value : Option Json)
        → ◌≡◌ {A = Result String Json} (ok (or_null value)) (ok (obj section))
        → value ≡ some (obj section)
    found none h = cc
    found (some value) h = ap some (ok_injective h)

both-true :
    (left right : Result String Bool)
    → both left right ≡ ok true
    → (left ≡ ok true) × (right ≡ ok true)
both-true (ok true) right h = (refl, h)
both-true (ok false) right h = cc
both-true (err e) right h = cc

demand-true :
    (test : Result String Bool) (message : String) → demand test message ≡ ok tt → test ≡ ok true
demand-true (ok true) message h = refl
demand-true (ok false) message h = cc
demand-true (err e) message h = cc

-- what the check of the approval admits
check_approval-IsApproved : (spec : Json) → check_approval spec ≡ ok tt → IsApproved spec
unfolding check_approval
check_approval-IsApproved spec h =
    let (by_status, by_flag) = both-true _ _ (demand-true _ _ h) in
    let (status, e, e1) = >>=-eq-ok (get_key "status" spec) _ by_status in
    let (text, e2, is_one) = is_approved-cases status (ok_injective e1) in
    let (fields, e3, e4) = get_key-str "status" spec text (e ∙ ap ok e2) in
    let (section, e5, e6) = flag_is-cases spec "reconciliation_apply" by_flag in
    let there = get_key-obj "safety" fields section (ap (get_key "safety") (sym e3) ∙ e5) in
    rw e3 (approved fields section text is_one e4 there e6)

-- what the checks before the first request admit, with `--apply`
check_spec-IsApproved :
    (spec : Json) (jwks_url : String) → check_spec spec jwks_url true ≡ ok tt → IsApproved spec
unfolding check_spec
check_spec-IsApproved spec jwks_url h =
    let (done, e, h1) = >>=-eq-ok (check_authority spec jwks_url) (λ done. check_approval spec) h in
    check_approval-IsApproved spec h1

module _ {S : Type 0} (library : Library) (channel : Channel S) where
  -- With `--apply`, Kong is left as it is, by a run that returns or raises, unless the manifest is
  -- approved.
  pub reconcile_apply_authorized :
      (codecs : KeyCodecs) (args : Arguments) (s : S)
      → args.apply ≡ true
      → ((reconcile library channel codecs args s).1 ≡ s) ⊎ IsApproved args.spec
  unfolding reconcile kong.Admin.Program.◌>>=◌ ◌>>◌
  reconcile_apply_authorized codecs args s applied =
      elim (Result-cases (check_spec args.spec args.jwks_url args.apply)) [
        | inr (message, e) ↦ inl (refused-keeps _ _ s e)
        | inl (done, e) ↦ inr (
            check_spec-IsApproved args.spec args.jwks_url
              (ap (check_spec args.spec args.jwks_url) (sym applied) ∙ e))
      ]
