-- ===== src/Auth/BodyLimit/Tests.antt =====
-- Runs of the middleware of body_limit.py.
use kong.Base.{
  String, List, [], ◌∷◌, Bool, true, false, none, some, ◌≡◌, ◌≤◌, ◌↔◌, refl, any, length,
}
use kong.Base.Text.{codes}
use kong.Base.Bytes.{Bytes}
use kong.Auth.BodyLimit.{
  Message, request, other, Scope, rejected, forwarded, coded, check_headers, collect, call,
}
use kong.Auth.BodyLimit.Forwarding.{Carries, call-eq-forwarded_iff, call_buffer_bound}
use kong.Auth.BodyLimit.Headers.{values, Admits, check_headers_iff}

abbrev headers : List (Bytes × Bytes)
headers = (codes "Content-Length", codes "5") ∷ (codes "Content-Encoding", codes " Identity") ∷ []

abbrev post : Scope
post = record { is_http = true; headers = headers }

abbrev chunk : String → Bool → Message
chunk text more = request (some (codes text)) (some more)

abbrev two_chunks : List Message
two_chunks = chunk "he" true ∷ other ∷ chunk "llo" false ∷ []

forwards : call 5 post two_chunks ≡ forwarded (codes "hello")
unfolding call check_headers collect
forwards = refl

-- the body is counted too, whatever the header says
counts : call 4 (record post { headers = [] }) two_chunks ≡ rejected 413 "payload_too_large"
unfolding call check_headers collect
counts = refl

twice :
    check_headers 9 ((codes "content-length", codes "5") ∷ headers)
    ≡ some (rejected 400 "content_length_invalid")
unfolding check_headers
twice = refl

call-eq-forwarded_iff_example : (call 5 post two_chunks ≡ forwarded (codes "hello")) ↔ (
    (post.is_http ≡ true)
    × (check_headers 5 post.headers ≡ none)
    × Carries two_chunks (codes "hello")
    × (length (codes "hello") ≤ 5))
call-eq-forwarded_iff_example = call-eq-forwarded_iff 5 post two_chunks (codes "hello")

call_buffer_bound_example : length (codes "hel") ≤ 5
unfolding call check_headers collect
call_buffer_bound_example =
    call_buffer_bound 5 post (chunk "he" true ∷ chunk "l" true ∷ []) (codes "hel") refl

check_headers_iff_example : (check_headers 5 headers ≡ none) ↔ (
    (any coded (values (codes "content-encoding") headers) ≡ false)
    × Admits 5 (values (codes "content-length") headers))
check_headers_iff_example = check_headers_iff 5 headers
