-- ===== src/Reconcile/ControlPlane/DryRun.antt =====
-- A run without `--apply` only reads.
use kong.Base.{String, false, ◌≡◌}
use kong.Base.Json.{Json, Fields}
use kong.Admin.Program.{Keeps, keeping, skipping}
use kong.Reconcile.Client.{Library, Channel, ReadsKeep}
use kong.Reconcile.Key.{KeyCodecs}
use kong.Reconcile.Reads.{Keeps-get, Keeps-all_rows}
use kong.Reconcile.ControlPlane.Entities.{
  enabled_plugins, ensure_plugin, find_service, ensure_service, find_consumer, find_credential,
  ensure_consumer,
}
use kong.Reconcile.ControlPlane.Route.{
  find_route, prepare_route, install_plugins, stage_route, ensure_route,
}
use kong.Reconcile.ControlPlane.Run.{Arguments, reconcile}

ruleset reading = (keeping, Keeps-get, Keeps-all_rows)

module _ {S : Type 0} (P : S → Type 0) (library : Library) (channel : Channel S)
    (reads : ReadsKeep P channel) where
  pub enabled_plugins-reads : (route_id : Json) → Keeps P (enabled_plugins library channel route_id)
  unfolding enabled_plugins
  enabled_plugins-reads route_id = search (reading, reads) depth 30

  ensure_plugin-reads :
      (route_id : Json) (name : String) (config : Json)
      → Keeps P (ensure_plugin library channel route_id name config false)
  unfolding ensure_plugin
  ensure_plugin-reads route_id name config =
      search (skipping, reading, enabled_plugins-reads) depth 40

  find_service-reads : (expected : Json) → Keeps P (find_service library channel expected)
  unfolding find_service
  find_service-reads expected = search (reading, reads) depth 30

  ensure_service-reads : (spec : Json) → Keeps P (ensure_service library channel spec false)
  unfolding ensure_service
  ensure_service-reads spec = search (skipping, reading, find_service-reads) depth 40

  find_consumer-reads : (expected : Json) → Keeps P (find_consumer library channel expected)
  unfolding find_consumer
  find_consumer-reads expected = search (reading, reads) depth 30

  find_credential-reads :
      (spec : Json) (id : String) → Keeps P (find_credential library channel spec id)
  unfolding find_credential
  find_credential-reads spec id = search (reading, reads) depth 30

  ensure_consumer-reads :
      (spec : Json) (public_key : String)
      → Keeps P (ensure_consumer library channel spec public_key false)
  unfolding ensure_consumer
  ensure_consumer-reads spec public_key =
      search (skipping, reading, find_consumer-reads, find_credential-reads) depth 60 fits 3000

  pub find_route-reads : (expected : Json) → Keeps P (find_route library channel expected)
  unfolding find_route
  find_route-reads expected = search (reading, reads) depth 30

  prepare_route-reads :
      (spec service expected : Json)
      → Keeps P (prepare_route library channel spec service expected false)
  unfolding prepare_route
  prepare_route-reads spec service expected =
      search (skipping, reading, reads, find_route-reads) depth 60 fits 3000

  install_plugins-reads :
      (configs : Fields) (id : Json) → Keeps P (install_plugins library channel configs id false)
  unfolding install_plugins
  install_plugins-reads configs id =
      search (skipping, keeping, ensure_plugin-reads) depth 60 fits 3000

  ensure_route-reads :
      (spec service expected : Json)
      → Keeps P (ensure_route library channel spec service expected false)
  unfolding ensure_route stage_route
  ensure_route-reads spec service expected =
      search (skipping, reading, prepare_route-reads, install_plugins-reads, enabled_plugins-reads)
        depth 60 fits 3000

  -- Without `--apply`, whatever holds of Kong and is kept by every request that reads holds after
  -- the run, whether it returns or raises, for any manifest and any answers.
  pub reconcile_dry_run :
      (codecs : KeyCodecs) (args : Arguments)
      → args.apply ≡ false
      → Keeps P (reconcile library channel codecs args)
  unfolding reconcile
  reconcile_dry_run codecs args dry = rw dry (
      search (reading, ensure_consumer-reads, ensure_service-reads, ensure_route-reads) depth 60
        fits 3000)
