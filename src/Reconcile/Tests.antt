-- ===== src/Reconcile/Tests.antt =====
-- A Kong that counts what is sent to it beside reading, and runs of the reconcilers on it.
use kong.Base.{
  ℕ, ◌+◌, ◌≤◌, String, [], ◌∷◌, Bool, true, false, some, ok, ◌≡◌, ◌⊎◌, refl, arith, length, ◌==◌,
  string_eq, if◌then◌else◌,
}
use kong.Base.Json.{Json, str, arr, nil, cons, obj}
use kong.Base.Values.{dict, texts}
use kong.Admin.Program.{Keeps}
use kong.Reconcile.Client.{Library, Channel, ReadsKeep}
use kong.Reconcile.Key.{KeyCodecs, to_bytes, subject}
use kong.Reconcile.Key.Reader.{read_subject}
use kong.Reconcile.Key.Decodes.{read_subject-subject}
use kong.Reconcile.ControlPlane.Run.{Arguments, reconcile}
use kong.Reconcile.ControlPlane.DryRun.{reconcile_dry_run}
use kong.Reconcile.ControlPlane.Approval.{IsApproved, reconcile_apply_authorized}
use kong.Reconcile.Campaign.Run.{CampaignArguments, reconcile_campaign}
use kong.Reconcile.Campaign.DryRun.{reconcile_campaign_dry_run}
use kong.Reconcile.Callback.Run.{CallbackArguments, reconcile_callback}
use kong.Reconcile.Callback.DryRun.{reconcile_callback_dry_run}

abbrev pub library : Library
library = record {
  show = λ value. "";
  dumps = λ value. "";
  urlencode = λ fields. "name=n8n";
  compile_pattern = λ pattern. some (λ text. text == "/v1/events");
}

-- `count + 1` for a request that does not read
abbrev counted : String → ℕ → ℕ
counted method count = if method == "GET" then count else count + 1

-- one row is listed everywhere
abbrev pub row : Json
row = obj (
    dict (
      ("id", str "1")
      ∷ ("name", str "n8n")
      ∷ ("username", str "n8n")
      ∷ ("custom_id", str "n8n")
      ∷ []))

abbrev counting : Channel ℕ
counting = record {
  send = λ encoding method path payload count.
      (ok (obj (dict (("data", arr (cons row nil)) ∷ []))), counted method count);
  normalize = λ path. ok (some path);
}

-- nothing was sent but what reads
abbrev OnlyRead : ℕ → Type 0
OnlyRead count = count ≡ 0

counting_reads : ReadsKeep OnlyRead counting
counting_reads encoding path = record { after = λ count only_read. only_read }

abbrev pub manifest : Json
manifest = obj (
    dict (
      ("issuer", str "https://id.example")
      ∷ ("host", str "api.example")
      ∷ ("audience", str "gateway")
      ∷ ("environment", str "staging")
      ∷ ("client_id", str "n8n")
      ∷ ("oidc_discovery", str "https://id.example/.well-known/openid-configuration")
      ∷ ("jwks_uri", str "https://id.example/protocol/openid-connect/certs")
      ∷ ("consumer", obj (dict (("username", str "n8n") ∷ ("custom_id", str "n8n") ∷ [])))
      ∷ (
        "consumers",
        arr (
            cons
              (obj (
                dict (
                  ("username", str "n8n")
                  ∷ ("custom_id", str "n8n")
                  ∷ ("scopes", texts ("events" ∷ []))
                  ∷ [])))
              nil),
      )
      ∷ ("service", obj (dict (("name", str "n8n") ∷ [])))
      ∷ (
        "routes",
        arr (
            cons
              (obj (
                dict (
                  ("name", str "n8n")
                  ∷ ("path", str "/v1/events")
                  ∷ ("method", str "POST")
                  ∷ ("scope", str "events")
                  ∷ [])))
              nil),
      )
      ∷ []))

abbrev key_set : Json
key_set = obj (
    dict (
      (
        "keys",
        arr (
            cons
              (obj (
                dict (
                  ("kty", str "RSA")
                  ∷ ("alg", str "RS256")
                  ∷ ("use", str "sig")
                  ∷ ("n", str "AQAB")
                  ∷ ("e", str "AQAB")
                  ∷ [])))
              nil),
      )
      ∷ []))

abbrev key_codecs : KeyCodecs
key_codecs = record {
  urlsafe_b64decode = λ text. some (1 ∷ 0 ∷ 1 ∷ []);
  b64encode = λ raw. "MCAw";
  wrap = λ text. text ∷ [];
}

abbrev n8n_arguments : Bool → Arguments
n8n_arguments apply = record {
  spec = manifest;
  jwks_url = "https://id.example/protocol/openid-connect/certs";
  apply = apply;
  jwks = ok key_set;
  active_kid = "";
}

reconcile_dry_run_example :
    Keeps OnlyRead (reconcile library counting key_codecs (n8n_arguments false))
reconcile_dry_run_example =
    reconcile_dry_run OnlyRead library counting counting_reads key_codecs (n8n_arguments false) refl

reconcile_apply_authorized_example :
    ((reconcile library counting key_codecs (n8n_arguments true) 0).1 ≡ 0) ⊎ IsApproved manifest
reconcile_apply_authorized_example =
    reconcile_apply_authorized library counting key_codecs (n8n_arguments true) 0 refl

abbrev campaign_arguments : CampaignArguments
campaign_arguments = record {
  manifest = manifest;
  jwks = ok key_set;
  active_kid = "";
  apply = false;
}

reconcile_campaign_dry_run_example :
    Keeps OnlyRead (reconcile_campaign library counting key_codecs campaign_arguments)
reconcile_campaign_dry_run_example =
    reconcile_campaign_dry_run OnlyRead library counting counting_reads key_codecs
      campaign_arguments refl

abbrev callback_arguments : CallbackArguments
callback_arguments = record { spec = manifest; jwks = ok key_set; active_kid = ""; apply = false }

reconcile_callback_dry_run_example :
    Keeps OnlyRead (reconcile_callback library counting key_codecs callback_arguments)
reconcile_callback_dry_run_example =
    reconcile_callback_dry_run OnlyRead library counting counting_reads key_codecs
      callback_arguments refl

modulus_short : length (to_bytes 70000) ≤ 16000
unfolding to_bytes
modulus_short = omega arith

exponent_short : length (to_bytes 65537) ≤ 16000
unfolding to_bytes
exponent_short = omega arith

read_subject-subject_example : read_subject (subject 70000 65537) ≡ ok (70000, 65537)
read_subject-subject_example = read_subject-subject 70000 65537 modulus_short exponent_short
