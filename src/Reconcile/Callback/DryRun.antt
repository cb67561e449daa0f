-- ===== src/Reconcile/Callback/DryRun.antt =====
-- A run of the callback reconciler without `--apply` only reads.
use kong.Base.{String, Bool, false, ◌≡◌}
use kong.Base.Json.{Json, Fields}
use kong.Admin.Program.{Keeps, keeping, skipping}
use kong.Reconcile.Client.{Library, Channel, ReadsKeep}
use kong.Reconcile.Reads.{Keeps-get, Keeps-all_rows}
use kong.Reconcile.Key.{KeyCodecs}
use kong.Reconcile.Callback.Run.{
  CallbackArguments, singleton, read_rows, settle, settle_callback_consumer,
  settle_callback_credential, settle_callback_service, existing_plugins, put_aside,
  stage_callback_route, install_controls, verify_live, protect_route, shield_route,
  ensure_callback_route, reconcile_callback,
}

ruleset reading = (keeping, Keeps-get, Keeps-all_rows)

module _ {S : Type 0} (P : S → Type 0) (library : Library) (channel : Channel S)
    (reads : ReadsKeep P channel) where
  pub singleton-reads :
      (resource : String) (name : Json) → Keeps P (singleton library channel resource name)
  unfolding singleton
  singleton-reads resource name = search (reading, reads) depth 30

  pub read_rows-reads : (path : String) → Keeps P (read_rows library channel path)
  unfolding read_rows
  read_rows-reads path = search (reading, reads) depth 30

  settle-reads :
      (found : Json) (change create : String) (payload : Json)
      → Keeps P (settle library channel false found change create payload)
  unfolding settle
  settle-reads found change create payload = search (skipping, keeping) depth 30

  settle_callback_consumer-reads :
      (spec : Json) → Keeps P (settle_callback_consumer library channel spec false)
  unfolding settle_callback_consumer
  settle_callback_consumer-reads spec = search (reading, reads, settle-reads) depth 60 fits 3000

  settle_callback_credential-reads :
      (spec consumer : Json) (public_key : String)
      → Keeps P (settle_callback_credential library channel spec consumer public_key false)
  unfolding settle_callback_credential
  settle_callback_credential-reads spec consumer public_key =
      search (keeping, read_rows-reads, settle-reads) depth 60 fits 3000

  settle_callback_service-reads :
      (spec : Json) → Keeps P (settle_callback_service library channel spec false)
  unfolding settle_callback_service
  settle_callback_service-reads spec =
      search (keeping, singleton-reads, settle-reads) depth 60 fits 3000

  pub existing_plugins-reads : (route : Json) → Keeps P (existing_plugins library channel route)
  unfolding existing_plugins
  existing_plugins-reads route = search (keeping, read_rows-reads) depth 30

  put_aside-reads :
      (route : Json) (payload : Fields) (needed : Bool)
      → Keeps P (put_aside library channel route payload needed false)
  unfolding put_aside
  put_aside-reads route payload needed = search (skipping, keeping) depth 30

  stage_callback_route-reads :
      (spec service expected : Json)
      → Keeps P (stage_callback_route library channel spec service expected false)
  unfolding stage_callback_route
  stage_callback_route-reads spec service expected =
      search
        (keeping, Keeps-all_rows, reads, existing_plugins-reads, put_aside-reads, singleton-reads)
        depth 60 fits 3000

  install_controls-reads :
      (spec expected : Json) (id : String) (needed : Bool)
      → Keeps P (install_controls library channel spec expected id needed false)
  unfolding install_controls
  install_controls-reads spec expected id needed =
      search (skipping, keeping, read_rows-reads) depth 60 fits 3000

  verify_live-reads :
      (spec expected : Json) (id : String) → Keeps P (verify_live library channel spec expected id)
  unfolding verify_live
  verify_live-reads spec expected id = search (keeping, read_rows-reads) depth 30

  protect_route-reads :
      (spec expected : Json) (id : String) (needed : Bool)
      → Keeps P (protect_route library channel spec expected id needed false)
  unfolding protect_route
  protect_route-reads spec expected id needed =
      search (keeping, install_controls-reads, verify_live-reads) depth 30

  shield_route-reads :
      (spec service expected : Json)
      → Keeps P (shield_route library channel spec service expected false)
  unfolding shield_route
  shield_route-reads spec service expected =
      search (keeping, stage_callback_route-reads, protect_route-reads) depth 60 fits 3000

  ensure_callback_route-reads :
      (spec service consumer credential expected : Json)
      → Keeps P
          (ensure_callback_route library channel spec service consumer credential expected false)
  unfolding ensure_callback_route
  ensure_callback_route-reads spec service consumer credential expected =
      search (skipping, keeping, shield_route-reads) depth 60 fits 3000

  -- Without `--apply`, whatever holds of Kong and is kept by every request that reads holds after
  -- the run of the callback reconciler, whether it returns or raises, for any manifest, any key and
  -- any answers.
  pub reconcile_callback_dry_run :
      (codecs : KeyCodecs) (args : CallbackArguments)
      → args.apply ≡ false
      → Keeps P (reconcile_callback library channel codecs args)
  unfolding reconcile_callback
  reconcile_callback_dry_run codecs args dry = rw dry (
      search
        (
          keeping, settle_callback_consumer-reads, settle_callback_credential-reads,
          settle_callback_service-reads, ensure_callback_route-reads,
        )
        depth 60 fits 3000)
