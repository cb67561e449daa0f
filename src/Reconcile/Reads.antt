-- ===== src/Reconcile/Reads.antt =====
-- What is kept by every request that only reads is kept by the collection of rows.
use kong.Base.{
  ℕ, zero, suc, String, List, [], ◌∷◌, ◌++◌, Option, none, some, Result, ok, inl, inr, Result-cases,
}
use kong.Base.Json.{Json, obj, Fields, end}
use kong.Base.Values.{or_else}
use kong.Admin.Program.{Program, Keeps, Keeps->>=, Keeps-pure}
use kong.Admin.Rows.{collect_admin_rows, collect, next_path, accept_page, done, more, unsafe}
use kong.Reconcile.Client.{Channel, ReadsKeep, tell, delete, request, request_json, all_rows}

module _ {S : Type 0} (P : S → Type 0) (fetch_page : String → Program S Json)
    (normalize : String → Result String (Option String)) (max_rows : ℕ)
    (reads : (path : String) → Keeps P (fetch_page path)) where
  collect-keeps :
      (pages : ℕ) (path : String) (rows : List Fields) (seen ids : List String) (s : S)
      → P s
      → P (collect fetch_page normalize max_rows pages path rows seen ids s).1
  unfolding collect
  collect-keeps zero path rows seen ids s p = p
  collect-keeps (suc pages) path rows seen ids s p =
      elim (Result-cases (next_path normalize path seen)) [
        | inr (message, e) ↦ rw (collect, e) p
        | inl (url, e) ↦
            let q = (reads url).after s p in
            elim (Result-cases (accept_page max_rows (fetch_page url s).0 rows ids)) [
              | inr (message, a) ↦ rw (collect, e, a) q
              | inl ((found, known, done), a) ↦ rw (collect, e, a) q
              | inl ((found, known, unsafe), a) ↦ rw (collect, e, a) q
              | inl ((found, known, more next), a) ↦
                  rw (collect, e, a)
                    (collect-keeps pages next (rows ++ found) (url ∷ seen) known
                      (fetch_page url s).1 q)
            ]
      ]

module _ {S : Type 0} {P : S → Type 0} (channel : Channel S) where
  pub Keeps-request :
      (method path : String) (payload : Option Json)
      → Keeps P (channel.send "form" method path payload)
      → Keeps P (request channel method path payload)
  unfolding request
  Keeps-request method path payload k =
      Keeps->>= k (λ value. Keeps-pure (ok (or_else value (obj end))))

  pub Keeps-request_json :
      (method path : String) (payload : Option Json)
      → Keeps P (channel.send "json" method path payload)
      → Keeps P (request_json channel method path payload)
  unfolding request_json
  Keeps-request_json method path payload k =
      Keeps->>= k (λ value. Keeps-pure (ok (or_else value (obj end))))

  pub Keeps-all_rows : (path : String) → ReadsKeep P channel → Keeps P (all_rows channel path)
  unfolding all_rows collect_admin_rows
  Keeps-all_rows path reads = record {
    after =
        collect-keeps P (λ path. request channel "GET" path none) channel.normalize 10000
          (λ path. Keeps-request "GET" path none (reads "form" path)) 100 path [] [] [];
  }

  pub Keeps-tell :
      (method path : String) (payload : Json)
      → Keeps P (channel.send "form" method path (some payload))
      → Keeps P (tell channel method path payload)
  unfolding tell
  Keeps-tell method path payload k =
      Keeps->>= (Keeps-request method path (some payload) k) (λ value. Keeps-pure (ok tt))

  pub Keeps-get : (path : String) → ReadsKeep P channel → Keeps P (request channel "GET" path none)
  Keeps-get path reads = Keeps-request "GET" path none (reads "form" path)

  pub Keeps-delete :
      (path : String)
      → Keeps P (channel.send "form" "DELETE" path none)
      → Keeps P (delete channel path)
  unfolding delete
  Keeps-delete path k = Keeps->>= (Keeps-request "DELETE" path none k) (λ value. Keeps-pure (ok tt))
