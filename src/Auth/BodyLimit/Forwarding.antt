-- ===== src/Auth/BodyLimit/Forwarding.antt =====
-- What the middleware forwards, and how much it ever holds.
use mathlib.Core.List.{append_assoc}
use kong.Base.{
  ℕ, suc, ◌+◌, ◌≤◌, List, [], ◌∷◌, ◌++◌, Bool, true, false, ◌≡◌, ◌↔◌, ◌≢◌, refl, sym, ◌∙◌, ap,
  arith, length, length-append, none, some, inl, inr, Bool-cases, Option-cases,
}
use kong.Base.Text.{codes}
use kong.Base.Bytes.{Bytes}
use kong.Auth.BodyLimit.{
  Message, disconnect, request, other, Scope, Outcome, passed, rejected, raised, forwarded, waiting,
  chunk_of, is_more, collect, call, check_headers, check_lengths, group, get_values, replays,
}

-- The messages carry the body `b`: up to the first that announces no more, none is a disconnect,
-- and their chunks make up `b`.
abbrev pub CarriesMore : (Bytes → Type 0) → Bool → Bytes → Bytes → Type 0
CarriesMore later true chunk b = (rest : Bytes) × (b ≡ chunk ++ rest) × later rest
CarriesMore later false chunk b = b ≡ chunk

abbrev pub Carries : List Message → Bytes → Type 0
Carries [] b = ⊥
Carries (disconnect ∷ messages) b = ⊥
Carries (other ∷ messages) b = Carries messages b
Carries (request chunk more ∷ messages) b =
    CarriesMore (Carries messages) (is_more more) (chunk_of chunk) b

-- The loop, from a buffer within the limit.
collect_sound :
    (limit : ℕ) (body : Bytes) (messages : List Message) (b : Bytes)
    → collect limit body messages ≡ forwarded b
    → ((rest : Bytes) × (b ≡ body ++ rest) × Carries messages rest) × (length b ≤ limit)
unfolding collect
collect_sound limit body [] b h = cc
collect_sound limit body (disconnect ∷ messages) b h = cc
collect_sound limit body (other ∷ messages) b h = collect_sound limit body messages b h
collect_sound limit body (request chunk more ∷ messages) b h = elim (Bool-cases (is_more more)) [
  | inl m ↦
      let ((rest, e, c), fits) =
        collect_sound limit (body ++ chunk_of chunk) messages b (ground arith) in
      (
        (chunk_of chunk ++ rest, e ∙ append_assoc body (chunk_of chunk) rest, rw m (rest, refl, c)),
        fits,
      )
  | inr m ↦
      let e : b ≡ body ++ chunk_of chunk = ground arith in
      (
        (chunk_of chunk, e, rw m refl),
        rw e (omega (arith, length-append body (chunk_of chunk), within)),
      )
]
  where
    within : length body + length (chunk_of chunk) ≤ limit
    within = ground arith

collect_complete :
    (limit : ℕ) (body : Bytes) (messages : List Message) (rest : Bytes)
    → Carries messages rest
    → length body + length rest ≤ limit
    → collect limit body messages ≡ forwarded (body ++ rest)
unfolding collect
collect_complete limit body [] rest c h = elim c [ ]
collect_complete limit body (disconnect ∷ messages) rest c h = elim c [ ]
collect_complete limit body (other ∷ messages) rest c h =
    collect_complete limit body messages rest c h
collect_complete limit body (request chunk more ∷ messages) rest c h =
    elim (Bool-cases (is_more more)) [
      | inl m ↦
          let (rest', e, c') = rw m at c in
          let total : length rest ≡ length (chunk_of chunk) + length rest' =
            ap length e ∙ length-append (chunk_of chunk) rest' in
          let deeper =
            collect_complete limit (body ++ chunk_of chunk) messages rest' c'
              (omega (arith, length-append body (chunk_of chunk), total, h)) in
          ground (arith, deeper, total, append_assoc body (chunk_of chunk) rest')
      | inr m ↦
          let e : rest ≡ chunk_of chunk = rw m at c in
          let total : length rest ≡ length (chunk_of chunk) = ap length e in
          ground (arith, e, total)
    ]

collect_waiting :
    (limit : ℕ) (body : Bytes) (messages : List Message) (b : Bytes)
    → length body ≤ limit
    → collect limit body messages ≡ waiting b
    → length b ≤ limit
unfolding collect
collect_waiting limit body [] b h e = ground arith
collect_waiting limit body (disconnect ∷ messages) b h e = cc
collect_waiting limit body (other ∷ messages) b h e = collect_waiting limit body messages b h e
collect_waiting limit body (request chunk more ∷ messages) b h e =
    collect_waiting limit (body ++ chunk_of chunk) messages b
      (ground (arith, length-append body (chunk_of chunk))) (ground arith)

-- an answer that ends the request
abbrev denies : Outcome → Bool
denies raised = true
denies (rejected status detail) = true
denies _ = false

-- A check of the headers that stops the request denies it.
check_lengths-denies :
    (limit : ℕ) (lengths : List Bytes) (o : Outcome)
    → check_lengths limit lengths ≡ some o
    → denies o ≡ true
check_lengths-denies limit [] o h = cc
check_lengths-denies limit (value ∷ []) o h = ground arith
check_lengths-denies limit (value ∷ second ∷ more) o h = ground arith

pub check_headers-denies :
    (limit : ℕ) (headers : List (Bytes × Bytes)) (o : Outcome)
    → check_headers limit headers ≡ some o
    → denies o ≡ true
unfolding check_headers
check_headers-denies limit headers o h =
    ground
      (arith, check_lengths-denies limit (get_values (codes "content-length") (group [] headers)) o)

-- A request that is not denied or passed on was entered: its messages were read from the start.
entered :
    (limit : ℕ) (scope : Scope) (messages : List Message) (o : Outcome)
    → call limit scope messages ≡ o
    → denies o ≡ false
    → o ≢ passed
    → (scope.is_http ≡ true)
      × (check_headers limit scope.headers ≡ none)
      × (collect limit [] messages ≡ o)
unfolding call
entered limit scope messages o h d n = elim (Bool-cases scope.is_http) [
  | inr no_http ↦ absurd (n (sym h ∙ rw no_http refl))
  | inl http ↦ elim (Option-cases (check_headers limit scope.headers)) [
    | inl passes ↦ (http, passes, ground arith)
    | inr (denial, stops) ↦ ground (arith, check_headers-denies limit scope.headers denial stops)
  ]
]

-- The application receives the body `b` exactly when the request is an HTTP request whose headers
-- pass, whose messages carry `b`, and `b` is within the limit.
pub call-eq-forwarded_iff :
    (limit : ℕ) (scope : Scope) (messages : List Message) (b : Bytes)
    → (call limit scope messages ≡ forwarded b) ↔ (
        (scope.is_http ≡ true)
        × (check_headers limit scope.headers ≡ none)
        × Carries messages b
        × (length b ≤ limit))
unfolding call
call-eq-forwarded_iff limit scope messages b = (
  λ h.
      let (http, passes, e) = entered limit scope messages (forwarded b) h refl (λ p. cc) in
      let ((rest, same, c), fits) = collect_sound limit [] messages b e in
      (http, passes, rw same c, fits),
  λ w. rw (w.0, w.1) (collect_complete limit [] messages b w.2 (omega (arith, w.3))),
)

-- Whatever has arrived, what the middleware holds while it waits is within the limit.
pub call_buffer_bound :
    (limit : ℕ) (scope : Scope) (messages : List Message) (b : Bytes)
    → call limit scope messages ≡ waiting b
    → length b ≤ limit
call_buffer_bound limit scope messages b h =
    let (_, _, e) = entered limit scope messages (waiting b) h refl (λ p. cc) in
    collect_waiting limit [] messages b (omega arith) e

-- The application that calls `replay` at least once is carried the same body.
pub replays-Carries : (body : Bytes) (n : ℕ) → Carries (replays body false (suc n)) body
unfolding replays
replays-Carries body n = refl
