-- ===== src/Reconcile/ControlPlane/Staged.antt =====
-- With `--apply`, a route is exposed under its own host only after its plugins were read back as
-- the manifest wants them.
use kong.Base.{String, true, Option, none, some, ok, ◌≡◌}
use kong.Base.Json.{Json, obj, Fields}
use kong.Reconcile.Client.{Library, Channel, ◌<>◌}
use kong.Reconcile.Fields.{named_form}
use kong.Base.Values.{item}
use kong.Reconcile.ControlPlane.{verify_plugins, expected_plugin_configs}
use kong.Reconcile.ControlPlane.Entities.{enabled_plugins}
use kong.Reconcile.ControlPlane.Route.{
  inert_payload, prepare_route, install_plugins, expose_route, ensure_route,
}

-- The requests that change a plugin, and those that put a route under the staged host.
pub data IsStaging (library : Library) : String → String → Option Json → Type 0 where
  patch_plugin :
      (id name : String) (config : Fields)
      → IsStaging library "PATCH" ("/plugins/" <> id) (some (obj (named_form name config)))
  post_plugin :
      (id name : String) (config : Fields)
      → IsStaging library "POST"
          ("/routes/" <> id <> "/plugins")
          (some (obj (named_form name config)))
  delete_plugin : (id : String) → IsStaging library "DELETE" ("/plugins/" <> id) none
  patch_route :
      (id : String) (payload : Fields) (name : Json)
      → IsStaging library "PATCH"
          ("/routes/" <> id)
          (some (obj (inert_payload library payload name)))
  post_route :
      (payload : Fields) (name : Json)
      → IsStaging library "POST" "/routes" (some (obj (inert_payload library payload name)))

ruleset moves = (patch_plugin, post_plugin, delete_plugin, patch_route, post_route)

module _ {S : Type 0} (library : Library) (channel : Channel S) where
  -- A run of `ensure_route` from `s` that reached the state `checked`: in it, the plugins of the very
  -- route that was prepared were read back, by its identity, as the manifest wants them, and what is
  -- left of the run is to expose that route.
  pub record IsChecked (spec service expected : Json) (s checked : S) : Type 0 where
    pub route : Json
    pub payload : Fields
    pub configs : Fields
    pub id : Json
    pub by_name : Fields
    pub prepared : S
    pub installed : S
    pub placed :
        prepare_route library channel spec service expected true s ≡ (ok (route, payload), prepared)
    pub wanted : expected_plugin_configs library spec expected ≡ ok configs
    pub named : item "id" route ≡ ok id
    pub equipped : install_plugins library channel configs id true prepared ≡ (ok tt, installed)
    pub read : enabled_plugins library channel id installed ≡ (ok by_name, checked)
    pub verified : verify_plugins library by_name expected spec ≡ ok tt
    pub left :
        ensure_route library channel spec service expected true s
        ≡ expose_route library channel spec expected route payload checked
