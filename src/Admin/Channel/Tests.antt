-- ===== src/Admin/Channel/Tests.antt =====
-- A host whose Docker knows one gateway container, and requests through the channel to it.
use kong.Base.{
  ◌⊎◌, ◌++◌, ℕ, ◌+◌, String, [], ◌∷◌, true, Option, none, some, ◌≡◌, refl, ok, err, elem, ◌==◌,
  nat_eq, string_eq, if◌then◌else◌,
}
use kong.Base.Text.{codes}
use kong.Base.Bytes.{bytes_eq}
use kong.Base.Json.{Json, null, bool, str, arr, obj, nil, cons, end, field}
use kong.Admin.Channel.Paths.{IsSafe, normalize_admin_reference-IsSafe}
use kong.Admin.Channel.{
  admin_origin, Codecs, validate_admin_path, normalize_admin_reference, response_value,
  encode_payload,
}
use kong.Admin.Channel.Container.{
  Run, Session, json_of, check_metadata, record_identity, verify_container, container_identity,
}
use kong.Admin.Channel.Exchange.{Ask, check_ask, read_output, exec, admin_request}
use kong.Admin.Channel.Pinned.{Exchange, run_asks, admin_requests_one_container}

abbrev gateway_id : String
gateway_id = "0123456789abcdef0123456789abcdef0123456789abcdef0123456789abcdef"

abbrev metadata : Json
metadata = obj (
    field "id" (str gateway_id) (
      field "running" (bool true) (
        field "network_mode" (str "codestra") (
          field "ports" (obj end) (
            field "service" (str "kong-gateway") (
              field "listeners"
                (arr (
                  cons (str "KONG_ADMIN_GUI_LISTEN=off")
                    (cons (str "KONG_ADMIN_LISTEN=127.0.0.1:8001") (cons null nil))))
                end))))))

abbrev codecs : Codecs
codecs = record {
  scheme = λ url. "";
  netloc = λ url. "";
  path_of = λ url. url;
  fragment = λ url. "";
  unquote = λ text. text;
  urlencode = λ fields. some (codes "name=a");
  dumps = λ value. some (codes "{}");
  loads = λ raw. if raw == codes "metadata" then some metadata else some (obj end);
}

-- the host counts the commands
abbrev run : Run ℕ
run argv bytes s = (
  some (record {
    is_success = true;
    stdout = if elem "inspect" argv then codes "metadata" else codes "{}\n200";
  }),
  s + 1,
)

abbrev ask : String → Option Json → Ask
ask method payload = record {
  method = method;
  path = "/services";
  payload = payload;
  container = "codestra-kong-kong-gateway-1";
  payload_encoding = "form";
}

abbrev start : Session ℕ
start = record { identified = []; host = 0 }

-- two commands to look at the container, and one inside it, for each request
abbrev after_one : Session ℕ
after_one = (admin_request run codecs (ask "GET" none) start).1

abbrev after_three : Session ℕ
after_three =
    (admin_request run codecs (ask "GET" none)
      (run_asks run codecs after_one (ask "PUT" none ∷ []))).1

answers : (admin_request run codecs (ask "GET" none) start).0 ≡ ok (some end)
unfolding admin_request check_ask validate_admin_path container_identity verify_container json_of
    check_metadata record_identity exec encode_payload read_output response_value
answers = refl

traverses : validate_admin_path codecs "/services/../status" ≡ err "unsafe Kong Admin path"
unfolding validate_admin_path
traverses = refl

same_origin :
    normalize_admin_reference codecs "http://127.0.0.1:8001/routes?offset=a" ≡ ok "/routes?offset=a"
unfolding normalize_admin_reference validate_admin_path
same_origin = refl

other_origin :
    normalize_admin_reference codecs "http://10.0.0.1:8001/routes" ≡ err "unsafe Kong Admin URL"
unfolding normalize_admin_reference
other_origin = refl

admin_requests_one_container_example :
    (id : String) × Exchange run codecs (ask "GET" none) start id (some end) after_one
    × Exchange run codecs
        (ask "GET" none)
        (run_asks run codecs after_one (ask "PUT" none ∷ []))
        id
        (some end)
        after_three
unfolding admin_request check_ask validate_admin_path container_identity verify_container json_of
    check_metadata record_identity exec encode_payload read_output response_value run_asks
admin_requests_one_container_example =
    admin_requests_one_container run codecs (ask "GET" none) (ask "GET" none) (ask "PUT" none ∷ [])
      start after_one after_three (some end) (some end) refl refl refl

abbrev listed_url : String
listed_url = "http://127.0.0.1:8001/routes?offset=a"

abbrev listed_path : String
listed_path = "/routes?offset=a"

normalize_admin_reference-IsSafe_example :
    IsSafe codecs listed_path
    × ((listed_url ≡ listed_path) ⊎ (codes listed_url ≡ codes admin_origin ++ codes listed_path))
normalize_admin_reference-IsSafe_example =
    normalize_admin_reference-IsSafe codecs listed_url listed_path same_origin
