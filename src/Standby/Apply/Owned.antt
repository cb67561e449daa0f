-- ===== src/Standby/Apply/Owned.antt =====
-- The requests that a run of apply_kong_standby.py sends, and the listings before them.
use kong.Base.{
  ℕ, zero, suc, String, List, [], ◌∷◌, Bool, true, false, not, Option, none, some, Result, ok, err,
  require, ◌≡◌, ◌⊎◌, inl, inr, refl, sym, subst, ap, ◌∙◌, In, >>=-eq-ok, >>-eq-ok, ok_injective,
  some_injective, none-ne-some, Bool-cases, ◌≢◌, ◌==◌, nat_eq, if◌then◌else◌,
}
use kong.Base as Base
use kong.Base.Text.{split}
use kong.Base.Values.Kept.{keep_if-In}
use kong.Base.Json.{Json, null, bool, num, str, arr, obj, Fields}
use kong.Reconcile.Campaign.Entities.{has}
use kong.Base.Values.{get_key, keep_if}
use kong.Admin.Program.{
  Program, Keeps, keeping, ◌>>=◌, pure, Keeps->>=_at, pure->>=_at, keeps-and_then, Keeps-branch,
  Keeps->>=, Keeps->>, Keeps-for_all, Keeps-for_each, Keeps-pure, run->>=-ok, run-pure-ok,
}
use kong.Reconcile.Client.{◌<>◌}
use kong.Standby.{Admin, is_entity_id, entity_id, is_owned}
use kong.Standby.Apply.Log.{
  Exchange, recorded, silent, IsOwnedIn, IsRead, Lists, by_name, of_route, reading, creating,
  changing, AllSanctioned, nothing_sent, sent,
}
use kong.Standby.Apply.{
  collection_rows, existing_identity, managed_identity, is_unowned, no_unowned, matched_identity,
  page, put_entity, upsert, plugin, plugin_payload, apply_service, read_back, synchronize,
  apply_standby,
}

entity_id-str : (value : Json) (id : String) → entity_id value ≡ ok id → value ≡ str id
unfolding entity_id
entity_id-str (str text) id h = ap str (accepted (is_entity_id (split 45 text)) _ h)
  where
    accepted :
        (b : Bool) (message : String)
        → ◌≡◌ {A = Result String String} (if b then ok text else err message) (ok id)
        → text ≡ id
    accepted true message h = ok_injective h
    accepted false message h = cc
entity_id-str null id h = cc
entity_id-str (bool b) id h = cc
entity_id-str (num n) id h = cc
entity_id-str (arr xs) id h = cc
entity_id-str (obj d) id h = cc

matched_identity-In :
    (rows : List Json) (id : String)
    → matched_identity rows ≡ ok (some id)
    → (row : Json) × In row rows × (get_key "id" row ≡ ok (str id))
matched_identity-In [] id h = absurd (none-ne-some (ok_injective h))
matched_identity-In (row ∷ []) id h =
    let (value, e1, h3) = >>=-eq-ok (get_key "id" row) _ h in
    let (found, e2, h4) = >>=-eq-ok (entity_id value) _ h3 in
    let same = some_injective (ok_injective h4) in
    (row, inl refl, e1 ∙ ap ok (entity_id-str value found e2) ∙ ap (λ v. ok (str v)) same)
matched_identity-In (row ∷ second ∷ rows) id h = cc

existing_identity-IsOwnedIn :
    (rows : List Json) (id : String) → existing_identity rows ≡ ok (some id) → IsOwnedIn rows id
unfolding existing_identity
existing_identity-IsOwnedIn [] id h = absurd (none-ne-some (ok_injective h))
existing_identity-IsOwnedIn (row ∷ []) id h =
    let (owned, e, h1) = >>=-eq-ok (is_owned row) _ h in
    let (is_true, h2) = >>-eq-ok owned _ (matched_identity (row ∷ [])) h1 in
    let (found, there, named) = matched_identity-In (row ∷ []) id h2 in
    (found, there, only (λ r. is_owned r ≡ ok true) found there (e ∙ ap ok is_true), named)
  where
    only : (Q : Json → Type 0) (found : Json) → In found (row ∷ []) → Q row → Q found
    only Q found (inl same) q = subst Q (sym same) q
    only Q found (inr m) q = absurd m
existing_identity-IsOwnedIn (row ∷ second ∷ rows) id h = cc

managed_identity-IsOwnedIn :
    (name : String) (rows : List Json) (id : String)
    → managed_identity name rows ≡ ok (some id)
    → IsOwnedIn rows id
unfolding managed_identity
managed_identity-IsOwnedIn name rows id h =
    let (same_name, e, h1) = >>=-eq-ok (keep_if (has "name" (str name)) rows) _ h in
    let (unowned, e1, h2) = >>=-eq-ok (keep_if is_unowned same_name) _ h1 in
    let (done, e2, h3) =
      >>=-eq-ok (no_unowned unowned)
        (λ done. Base.◌>>=◌ (keep_if is_owned same_name) matched_identity) h2 in
    let (owned, e3, h4) = >>=-eq-ok (keep_if is_owned same_name) matched_identity h3 in
    let (row, there, named) = matched_identity-In owned id h4 in
    let (there1, tagged) = keep_if-In is_owned same_name owned row e3 there in
    let (there2, held) = keep_if-In (has "name" (str name)) rows same_name row e there1 in
    (row, there2, tagged, named)

-- the rows of a page are read by a request that is in the log after it
page-IsRead :
    {S : Type 0} (admin : Admin S) (path : String) (s s' : S × List Exchange) (rows : List Json)
    → page (recorded admin) path s ≡ (ok rows, s')
    → IsRead s'.1 path rows
unfolding page
page-IsRead admin path s s' rows h =
    let (response, mid, e, h1) = run->>=-ok ((recorded admin).send "GET" path none) _ s h in
    let (read, same) = run-pure-ok (collection_rows response) mid h1 in
    let answered = ap (λ r. r.0) e in
    let newest = ap (λ r. r.1.1) e ∙ ap (λ m. m.1) same in
    (
      record {
        method = "GET";
        path = path;
        payload = none;
        answer = (admin.send "GET" path none s.0).0;
      },
      subst (In _) newest (inl refl),
      refl,
      refl,
      ap (λ answer. Base.◌>>=◌ answer collection_rows) answered ∙ read,
    )

module _ {S : Type 0} (admin : Admin S) where
  abbrev logged : Admin (S × List Exchange)
  logged = recorded admin

  abbrev OnlyOwned : S × List Exchange → Type 0
  OnlyOwned (s, log) = AllSanctioned admin.urlencode log

  reads : (path : String) → Keeps OnlyOwned (logged.send "GET" path none)
  reads path = record { after = λ s p. sent (reading refl) p }

  page-Keeps : (path : String) → Keeps OnlyOwned (page logged path)
  unfolding page
  page-Keeps path = search (keeping, reads) depth 20

  silent-Keeps : {A : Type 0} (program : Program S A) → Keeps OnlyOwned (silent program)
  silent-Keeps program = record { after = λ s p. p }

  put_entity-keeps :
      (listing change create : String) (payload : Json) (rows : List Json)
      (identity : Option String) (s : S × List Exchange)
      → Lists admin.urlencode listing change
      → IsRead s.1 listing rows
      → ((id : String) → identity ≡ some id → IsOwnedIn rows id)
      → OnlyOwned s
      → OnlyOwned (put_entity logged identity change create payload s).1
  unfolding put_entity
  put_entity-keeps listing change create payload rows none s lists read owned p =
      sent (creating refl) p
  put_entity-keeps listing change create payload rows (some id) s lists read owned p =
      sent (changing listing change id rows refl refl lists read (owned id refl)) p

  upsert-Keeps :
      (collection : String) (name payload : Json)
      → In collection ("services" ∷ "routes" ∷ [])
      → Keeps OnlyOwned (upsert logged collection name payload)
  unfolding upsert
  upsert-Keeps collection name payload known =
      let listing = "/" <> collection <> "?" <> admin.urlencode name in
      Keeps->>=_at OnlyOwned _ (page-Keeps listing) (λ rows s s' e p.
        pure->>=_at OnlyOwned (existing_identity rows) _ s' p (λ identity found.
          put_entity-keeps listing ("/" <> collection <> "/") ("/" <> collection) payload rows
            identity s' (by_name collection name known) (page-IsRead admin listing s s' rows e)
            (λ id same. existing_identity-IsOwnedIn rows id (found ∙ ap ok same)) p))

  ends-keeps :
      {A : Type 0} (m : Program (S × List Exchange) A) (s : S × List Exchange)
      → OnlyOwned (m s).1
      → OnlyOwned ((m >>= λ answer. pure (ok tt)) s).1
  unfolding ◌>>=◌ pure
  ends-keeps m s p =
      keeps-and_then OnlyOwned (m s) (λ answer. pure {A = Unit {0}} (ok tt)) p (λ a t q. q)

  put_plugin-keeps :
      (route_id name : String) (config : Fields) (rows : List Json) (s : S × List Exchange)
      → IsRead s.1 ("/routes/" <> route_id <> "/plugins?size=1000") rows
      → OnlyOwned s
      → OnlyOwned
          ((pure (managed_identity name rows) >>= λ identity.
              put_entity logged identity "/plugins/"
                ("/routes/" <> route_id <> "/plugins")
                (plugin_payload name config)
              >>= λ answer. pure (ok tt))
            s).1
  put_plugin-keeps route_id name config rows s read p =
      pure->>=_at OnlyOwned (managed_identity name rows) _ s p (λ identity found.
        ends-keeps
          (put_entity logged identity "/plugins/" ("/routes/" <> route_id <> "/plugins")
            (plugin_payload name config))
          s
          (put_entity-keeps ("/routes/" <> route_id <> "/plugins?size=1000") "/plugins/"
            ("/routes/" <> route_id <> "/plugins") (plugin_payload name config) rows identity s
            (of_route route_id) read
            (λ id same. managed_identity-IsOwnedIn name rows id (found ∙ ap ok same)) p))

  plugin-Keeps :
      (route name : String) (config : Fields) → Keeps OnlyOwned (plugin logged route name config)
  unfolding plugin
  plugin-Keeps route name config = Keeps->>= (Keeps-pure (entity_id (str route))) (λ route_id.
      let listing = "/routes/" <> route_id <> "/plugins?size=1000" in
      Keeps->>=_at OnlyOwned _ (page-Keeps listing) (λ rows s s' e p.
        put_plugin-keeps route_id name config rows s' (page-IsRead admin listing s s' rows e) p))

  services-Keeps : (name payload : Json) → Keeps OnlyOwned (upsert logged "services" name payload)
  services-Keeps name payload = upsert-Keeps "services" name payload (inl refl)

  routes-Keeps : (name payload : Json) → Keeps OnlyOwned (upsert logged "routes" name payload)
  routes-Keeps name payload = upsert-Keeps "routes" name payload (inr (inl refl))

  apply_service-Keeps : (config item_ : Json) → Keeps OnlyOwned (apply_service logged config item_)
  unfolding apply_service
  apply_service-Keeps config item_ =
      search (keeping, services-Keeps, routes-Keeps, plugin-Keeps) depth 60 fits 3000

  read_back-Keeps : (route_name : String) → Keeps OnlyOwned (read_back logged route_name)
  unfolding read_back
  read_back-Keeps route_name = search (keeping, page-Keeps) depth 30

  synchronize-Keeps :
      (probe : Program (S × List Exchange) (Option ℕ)) (attempts : ℕ)
      → Keeps OnlyOwned probe
      → Keeps OnlyOwned (synchronize logged probe attempts)
  unfolding synchronize
  synchronize-Keeps probe zero probes = Keeps-pure (ok tt)
  synchronize-Keeps probe (suc attempts) probes = Keeps->>= probes (λ answer.
      Keeps-branch _ (Keeps-pure (ok tt)) (
        Keeps-branch (attempts == 0)
          (Keeps-pure (err "Kong data-plane policy synchronization failed"))
          (synchronize-Keeps probe attempts probes)))

  apply_standby-Keeps :
      (probe : Program S (Option ℕ)) (config : Json)
      → Keeps OnlyOwned (apply_standby logged (silent probe) config)
  unfolding apply_standby
  apply_standby-Keeps probe config = Keeps->>= (Keeps-pure _) (λ services.
      Keeps->>= (Keeps-pure _) (λ listed.
        Keeps->>= (Keeps-for_all listed (apply_service-Keeps config)) (λ applied.
          Keeps->> (Keeps-for_each applied read_back-Keeps) (
            Keeps->> (synchronize-Keeps (silent probe) 10 (silent-Keeps probe))
              (Keeps->> (silent-Keeps admin.confirm_unchanged) (Keeps-pure (ok applied)))))))

  -- Record the requests of a run with their answers, for any Kong, probe and configuration, whether
  -- the run returns or raises. Each request reads with GET, creates with POST, or changes with PATCH
  -- an entity that was listed with the tag before, in the same run: a service or a route in the
  -- listing of its collection by a name, a plugin in the listing of the plugins of a route.
  pub apply_standby_owned :
      (probe : Program S (Option ℕ)) (config : Json) (start : S)
      → AllSanctioned admin.urlencode
          (apply_standby (recorded admin) (silent probe) config (start, [])).1.1
  apply_standby_owned probe config start =
      (apply_standby-Keeps probe config).after (start, []) nothing_sent
