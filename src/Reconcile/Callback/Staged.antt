-- ===== src/Reconcile/Callback/Staged.antt =====
-- With `--apply`, a callback route comes under its own host only after its plugins were read back as
-- the manifest wants them.
use kong.Base.{String, Bool, true, Option, some, ok, List, ◌≡◌}
use kong.Base.Json.{Json, obj, Fields}
use kong.Admin.Program.{keeping}
use kong.Reconcile.Client.{Library, Channel, ◌<>◌, id_text}
use kong.Reconcile.Reads.{Keeps-request, Keeps-request_json}
use kong.Reconcile.Callback.Payloads.{quarantined, deny_config, Control, control_payload}
use kong.Reconcile.Callback.Run.{
  read_rows, stage_callback_route, install_controls, check_live, finish_route,
  ensure_callback_route,
}

-- What is sent before a route is restored: a plugin of the controls, the deny plugin, and the route
-- under the host that is not served.
pub data IsAside : Json → Type 0 where
  control : (c : Control) → IsAside (obj (control_payload c))
  deny : IsAside deny_config

pub data IsSetAside : String → String → String → Option Json → Type 0 where
  patch_plugin :
      (encoding id : String) (payload : Json)
      → IsAside payload
      → IsSetAside encoding "PATCH" ("/plugins/" <> id) (some payload)
  post_plugin :
      (encoding id : String) (payload : Json)
      → IsAside payload
      → IsSetAside encoding "POST" ("/routes/" <> id <> "/plugins") (some payload)
  patch_route :
      (id : String) (payload : Fields) (is_new : Bool)
      → IsSetAside "json" "PATCH" ("/routes/" <> id) (some (obj (quarantined payload is_new)))
  post_route :
      (payload : Fields) (is_new : Bool)
      → IsSetAside "json" "POST" "/routes" (some (obj (quarantined payload is_new)))

ruleset moves = (patch_plugin, post_plugin, patch_route, post_route, control, deny)

ruleset sending = (keeping, Keeps-request, Keeps-request_json)

module _ {S : Type 0} (library : Library) (channel : Channel S) where
  -- A run of `ensure_callback_route` from `s` that reached the state `checked`: in it, the plugins of
  -- the very route that was staged were read back, by its identity, the enabled ones as the manifest
  -- wants them, and what is left of the run is to restore the route of that identity.
  pub record IsVerified (spec service consumer credential expected : Json) (s checked : S)
      : Type 0 where
    pub staged : Json
    pub payload : Fields
    pub needed : Bool
    pub id : String
    pub rows : List Json
    pub placed : S
    pub equipped : S
    pub staging :
        stage_callback_route library channel spec service expected true s
        ≡ (ok (staged, payload, needed), placed)
    pub named : id_text library staged ≡ ok id
    pub installing :
        install_controls library channel spec expected id needed true placed ≡ (ok tt, equipped)
    pub read :
        read_rows library channel ("/routes/" <> id <> "/plugins") equipped ≡ (ok rows, checked)
    pub verified : check_live library spec expected rows ≡ ok tt
    pub left :
        ensure_callback_route library channel spec service consumer credential expected true s
        ≡ finish_route library channel spec service consumer credential expected payload id checked
