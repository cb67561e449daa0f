-- ===== src/Lib.antt =====
-- The Codestra gateway repository keeps the configuration of a Kong gateway as code, and the Python
-- programs that stand beside it. Modelled here are the programs that decide something at run time
-- or before a change:
--
--   deploy/kong-production-standby/auth-middleware/body_limit.py
--       An ASGI middleware in front of app.py. It checks the headers of a request, reads the body
--       message by message up to a limit, and runs the application on a channel that replays it.
--       Auth/BodyLimit: `configured_max_body_bytes`, `make` (`__init__`), `check_headers` and
--       `collect` (the two halves of `__call__`), `call` (`__call__`), `replay`.
--   deploy/kong-production-standby/auth-middleware/app.py
--       Auth/Failure: `deny` and the exceptions that leave a handler. Auth/Identity: `identity`.
--       Auth/Store: the SQLite database of `state()`, two tables as lists of rows, with each SQL
--       statement as a function. Auth/Command: `command`. Auth/Webhook: `webhook`.
--   scripts/gateway_integrations.py
--       The contract of an integration with the gateway. Gateway/Paths: `path_segments`.
--       Gateway/Hostname: `hostname`. Gateway/Overlap: `_overlaps`. Gateway/Document: the document,
--       with the shape that its schema admits. Gateway/Validate: `validate`, one module for each run
--       of its checks. Gateway/Set: `validate_set`.
--   scripts/kong_admin_channel.py
--       The private channel to Kong's Admin API. Admin/Rows: `collect_admin_rows`. Admin/Channel:
--       `validate_admin_path`, `normalize_admin_reference`, `response_value`, `form_payload`, and the
--       body of a request. Admin/Channel/Container: `run_json`, `verify_container`, and
--       `container_identity` (`confirm_unchanged` does the same) with `_IDENTIFIED` in a `Session`.
--       Admin/Channel/Exchange: `admin_request`.
--   scripts/reconcile_kong_n8n_control_plane.py
--       Reconcile/ControlPlane: the Lua guard and the configurations of the plugins. Its Entities:
--       `enabled_plugins`, `ensure_plugin`, `ensure_service`, `ensure_consumer`. Its Route:
--       `select_route` and `ensure_route`, in the steps `prepare_route`, `install_plugins`,
--       `stage_route` and `expose_route`. Its Run:
--       `main`, as `reconcile`.
--   scripts/reconcile_kong_campaign_automation.py
--       Reconcile/Fields: `require_exact_fields`, `plugin_form`. Reconcile/Key: `rsa_public_key_pem`
--       and `active_rsa_key`, which all three reconcilers use; its Reader is a strict
--       reader of DER.
--       Reconcile/Campaign/Manifest, Guard, Entities and Run: the manifest, the Lua guard, `ensure_*`
--       and `main`, as `reconcile_campaign`. Its Parties and Admits: whom the guard lets through.
--   scripts/reconcile_kong_callback_routes.py
--       Reconcile/Callback/Select, Verify, Payloads and Run: `select_managed_route`, the readbacks,
--       what is sent, and `main`, as `reconcile_callback`.
--   scripts/apply_kong_standby.py, scripts/rollback_kong_standby.py
--       Standby/Apply and Standby/Rollback: the two `main`, as `apply_standby` and `rollback`.
--       Standby/Apply/Log: Kong with a log of what it is sent and answers.
--
-- The scripts that talk to Kong are programs (Admin/Program): a step may raise, and may change the
-- state of what it talks to, of any type. A request is a field of a record (`Channel` of
-- Reconcile/Client, `Admin` of Standby), so that the theorems hold for any behaviour of Kong.
--
-- Base holds what they share: names of the library, Boolean tests over the native numbers, results
-- of code that raises, Python's `int()`, `str.split()` and `encode()` on lists of code points (Bytes),
-- texts (Text), integers (Int), the values of `json.loads` (Json), and what Python does with them
-- (Values).
--
-- A function that raises returns a `Result`, with the code or the message of its error. A handler of
-- app.py takes the state of the database and returns an answer with the state after it; the clock,
-- and which statements of the transaction fail, are arguments. A statement that fails inside a
-- transaction is rolled back; where `BEGIN` fails, the `ROLLBACK` of the handler raises too, and the
-- answer is that of an uncaught exception. A failing `ROLLBACK` inside a transaction is not modelled.
-- Every clock is a number of seconds from the epoch, and a cutoff before the epoch is 0: no row is
-- older in either reading.
--
-- What is not code of the repository is a parameter: PyJWT and the tenant registry (`Services`), JSON
-- decoding and SHA-256 (`Decoders`), the HMAC of a webhook (`sign`), the files under config/, the
-- JSON Schema validator and `ipaddress.ip_network` (`Authority`), the page fetcher and the
-- normalisation that the callers of `collect_admin_rows` pass, urllib.parse and the encoders
-- (`Codecs`), `subprocess.run` (`Run`), which may change the state of the host at every call, the
-- answers of Kong, `json.dumps`, `re` and `urlencode` of the reconcilers (`Library`), and base64 and
-- `textwrap` (`KeyCodecs`).
--
-- Bounds: `collect_admin_rows` runs on its own limit of pages, and the loop of the middleware on the
-- messages that arrive; where they end it is still waiting, and the result says so. Texts of headers
-- are lists of code points below 256; `int()` is modelled on ASCII digits, with its limit of 4300 of
-- them. A JSON number with a fraction is left out. The message for an HTTP status of the Admin API
-- leaves the number out, and any exception of `json.loads` in `run_json` counts as one that it
-- catches.
--
-- The reconcilers take the document of the manifest and of the key set as arguments, and return the
-- rows of their evidence: its file, with the clock and the digest of the manifest, is left out. The
-- messages of their errors leave out names and values; a plugin whose name is no text, and a list to
-- be sorted with a member that is no text, raise. The rollback runs on fuel: each of its rounds deletes
-- an identity that it has not deleted before, so one round more than there are identities is enough.
--
-- Not modelled: the bytes of an error response, `health`, the compilation of integrations, the
-- direct transport of the Admin channel (`http_admin_request`), the reconciler of the canonical routes
-- (scripts/reconcile_kong_canonical_routes.py), the acceptance run of the standby, the generators and
-- validators
-- under scripts/, the tools under tools/, the Lua plugins and the YAML and JSON configuration.
pub mod Base
pub mod Gateway
pub mod Auth
pub mod Admin
pub mod Reconcile
pub mod Standby
