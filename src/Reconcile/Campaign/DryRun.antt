-- ===== src/Reconcile/Campaign/DryRun.antt =====
-- A run of the campaign reconciler without `--apply` only reads.
use kong.Base.{String, false, ◌≡◌}
use kong.Base.Json.{Json, Fields}
use kong.Admin.Program.{Keeps, keeping, skipping}
use kong.Reconcile.Client.{Library, Channel, ReadsKeep}
use kong.Reconcile.Key.{KeyCodecs}
use kong.Reconcile.Campaign.Entities.{
  fetch, fetch_rows, find_entity, ensure_entity, find_plugin, ensure_route_plugin,
}
use kong.Reconcile.Campaign.Run.{
  CampaignArguments, find_held, settle_consumer, settle_credential, ensure_campaign_consumer,
  settle_route, ensure_route_plugins, expose_route, ensure_campaign_route, reconcile_campaign,
}

module _ {S : Type 0} (P : S → Type 0) (library : Library) (channel : Channel S)
    (reads : ReadsKeep P channel) where
  fetch-reads : (path : String) → Keeps P (fetch library channel path)
  unfolding fetch
  fetch-reads path = reads "form" path

  fetch_rows-reads : (path : String) → Keeps P (fetch_rows library channel path)
  unfolding fetch_rows
  fetch_rows-reads path = search (keeping, fetch-reads) depth 30

  find_entity-reads :
      (collection : String) (query : Json) → Keeps P (find_entity library channel collection query)
  unfolding find_entity
  find_entity-reads collection query = search (keeping, fetch_rows-reads) depth 30

  ensure_entity-reads :
      (collection : String) (query payload : Json)
      → Keeps P (ensure_entity library channel collection query payload false)
  unfolding ensure_entity
  ensure_entity-reads collection query payload =
      search (skipping, keeping, find_entity-reads, fetch-reads) depth 60 fits 3000

  find_plugin-reads : (route_id name : String) → Keeps P (find_plugin library channel route_id name)
  unfolding find_plugin
  find_plugin-reads route_id name = search (keeping, fetch_rows-reads) depth 30

  ensure_route_plugin-reads :
      (route_id name : String) (config : Fields)
      → Keeps P (ensure_route_plugin library channel route_id name config false)
  unfolding ensure_route_plugin
  ensure_route_plugin-reads route_id name config =
      search (skipping, keeping, find_plugin-reads, fetch-reads) depth 60 fits 3000

  find_held-reads :
      (id : String) (custom_id : Json) → Keeps P (find_held library channel id custom_id)
  unfolding find_held
  find_held-reads id custom_id = search (keeping, fetch_rows-reads) depth 30

  settle_consumer-reads :
      (live username : Json) (identity : Fields)
      → Keeps P (settle_consumer library channel live username identity false)
  unfolding settle_consumer
  settle_consumer-reads live username identity = search (skipping, keeping) depth 60 fits 3000

  settle_credential-reads :
      (id : String) (credential payload : Json)
      → Keeps P (settle_credential library channel id credential payload false)
  unfolding settle_credential
  settle_credential-reads id credential payload = search (skipping, keeping) depth 60 fits 3000

  ensure_campaign_consumer-reads :
      (live spec : Json) (public_key : String)
      → Keeps P (ensure_campaign_consumer library channel live spec public_key false)
  unfolding ensure_campaign_consumer
  ensure_campaign_consumer-reads live spec public_key =
      search (keeping, find_held-reads, settle_consumer-reads, settle_credential-reads, fetch-reads)
        depth 60 fits 3000

  settle_route-reads :
      (route payload : Json) → Keeps P (settle_route library channel route payload false)
  unfolding settle_route
  settle_route-reads route payload = search (skipping, keeping) depth 60 fits 3000

  ensure_route_plugins-reads :
      (id : String) (manifest expected : Json)
      → Keeps P (ensure_route_plugins library channel id manifest expected false)
  unfolding ensure_route_plugins
  ensure_route_plugins-reads id manifest expected =
      search (keeping, ensure_route_plugin-reads) depth 60 fits 3000

  expose_route-reads :
      (manifest service expected : Json)
      → Keeps P (expose_route library channel manifest service expected false)
  unfolding expose_route
  expose_route-reads manifest service expected =
      search (keeping, fetch_rows-reads, fetch-reads, settle_route-reads) depth 60 fits 3000

  ensure_campaign_route-reads :
      (manifest service signing_key expected : Json)
      → Keeps P (ensure_campaign_route library channel manifest service signing_key expected false)
  unfolding ensure_campaign_route
  ensure_campaign_route-reads manifest service signing_key expected =
      search (keeping, expose_route-reads, ensure_route_plugins-reads) depth 60 fits 3000

  -- Without `--apply`, whatever holds of Kong and is kept by every request that reads holds after
  -- the run of the campaign reconciler, whether it returns or raises, for any manifest, any key and
  -- any answers.
  pub reconcile_campaign_dry_run :
      (codecs : KeyCodecs) (args : CampaignArguments)
      → args.apply ≡ false
      → Keeps P (reconcile_campaign library channel codecs args)
  unfolding reconcile_campaign
  reconcile_campaign_dry_run codecs args dry = rw dry (
      search
        (
          keeping, ensure_entity-reads, fetch_rows-reads, ensure_campaign_consumer-reads,
          ensure_campaign_route-reads,
        )
        depth 60 fits 3000)
