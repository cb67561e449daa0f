-- ===== src/Standby/Apply/Log.antt =====
-- The requests of a run of apply_kong_standby.py, as they are sent and answered.
use kong.Base.{String, List, [], ◌∷◌, true, Option, Result, ok, ◌≡◌, In}
use kong.Base as Base
use kong.Base.Json.{Json, str}
use kong.Base.Values.{get_key}
use kong.Admin.Program.{Program}
use kong.Reconcile.Client.{◌<>◌}
use kong.Standby.{Admin, is_owned}
use kong.Standby.Apply.{collection_rows}

-- a request and its answer
pub record Exchange : Type 0 where
  pub method : String
  pub path : String
  pub payload : Option Json
  pub answer : Result String Json

-- a program that sends nothing that is recorded
abbrev pub silent : {S A : Type 0} → Program S A → Program (S × List Exchange) A
silent program (s, log) = ((program s).0, ((program s).1, log))

-- Kong with the log of the exchanges, the newest first
abbrev pub recorded : {S : Type 0} → Admin S → Admin (S × List Exchange)
recorded admin = record {
  send = λ method path payload (s, log).
      let (answer, after) = admin.send method path payload s in
      (
        answer,
        (after, record { method = method; path = path; payload = payload; answer = answer } ∷ log),
      );
  confirm_unchanged = silent admin.confirm_unchanged;
  urlencode = admin.urlencode;
  quote = admin.quote;
}

-- one of the rows has the tag and the identity
abbrev pub IsOwnedIn : List Json → String → Type 0
IsOwnedIn rows id =
    (row : Json) × In row rows × (is_owned row ≡ ok true) × (get_key "id" row ≡ ok (str id))

-- the rows were read from the path
abbrev pub IsRead : List Exchange → String → List Json → Type 0
IsRead log path rows =
    (read : Exchange) × In read log
    × (read.method ≡ "GET")
    × (read.path ≡ path)
    × (Base.◌>>=◌ read.answer collection_rows ≡ ok rows)

-- the path that lists entities, and what the path of one of them begins with
pub data Lists (urlencode : Json → String) : String → String → Type 0 where
  by_name :
      (collection : String) (name : Json)
      → In collection ("services" ∷ "routes" ∷ [])
      → Lists urlencode ("/" <> collection <> "?" <> urlencode name) ("/" <> collection <> "/")
  of_route :
      (route : String) → Lists urlencode ("/routes/" <> route <> "/plugins?size=1000") "/plugins/"

-- A request that reads, one that creates, or one that changes an entity that a request before it
-- has listed with the tag, in the listing of its kind.
pub data IsSanctioned (urlencode : Json → String) (earlier : List Exchange) (exchange : Exchange)
    : Type 0 where
  reading : exchange.method ≡ "GET" → IsSanctioned urlencode earlier exchange
  creating : exchange.method ≡ "POST" → IsSanctioned urlencode earlier exchange
  changing :
      (listing change id : String) (rows : List Json)
      → exchange.method ≡ "PATCH"
      → exchange.path ≡ change <> id
      → Lists urlencode listing change
      → IsRead earlier listing rows
      → IsOwnedIn rows id
      → IsSanctioned urlencode earlier exchange

-- every request of the log, by the log before it
pub data AllSanctioned (urlencode : Json → String) : List Exchange → Type 0 where
  nothing_sent : AllSanctioned urlencode []
  sent :
      {exchange : Exchange} {earlier : List Exchange}
      → IsSanctioned urlencode earlier exchange
      → AllSanctioned urlencode earlier
      → AllSanctioned urlencode (exchange ∷ earlier)
