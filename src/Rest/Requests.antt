-- ===== src/Rest/Requests.antt =====
-- CurlClient of src/xbatd/src/CurlClient.cpp: the requests of a session, one by one.
use xbat_ginkgo.Base.{
  ◌⊎◌, inl, inr, ◌≡◌, ◌≢◌, refl, subst, Bool, List, [], ◌∷◌, ◌++◌, Option, none, some, Bytes, codes,
  ◌>>=◌,
}
use xbat_ginkgo.Base.Gives.{Gives, Gives-bind, Gives-if, Gives-map, Gives-some}
use xbat_ginkgo.Rest.{
  Json, given, no_body, Request, CurlClient, Server, construct, post_body, post_request,
  get_request, construct_auth_header, record_request, urlencoded, logout_payload, response, post,
  get, store_token, login, revoked, logout, register_job, register_node,
}
use xbat_ginkgo.Rest.Session.{
  Call, logging_in, logging_out, registering_job, registering_node, getting, perform, run, IsSound,
  construct-IsSound, perform_lem, run-IsSound,
}
use xbat_ginkgo.Text.Numbers.{to_string}

module _ {J : Type 0} (json : Json J) (start : CurlClient) where
  -- What a call sends: where to, the type of the content, and the fields.
  abbrev pub IsFor : Call J → Request → Type 0
  IsFor logging_in r =
      (r.url ≡ start.base_url ++ codes "/oauth/token")
      × (r.content_type ≡ urlencoded)
      × (r.body ≡ given (codes "grant_type=client_credentials"))
  IsFor logging_out r =
      (r.url ≡ start.base_url ++ codes "/oauth/revoke")
      × (r.content_type ≡ urlencoded)
      × ((token : Bytes) × (r.body
            ≡ given (
                codes "client_id="
                ++ (start.client_id
                    ++ (codes "&token=" ++ (token ++ codes "&token_type_hint=access_token")))))
          × ((token ≡ []) ⊎ (r.auth_header ≡ codes "Authorization: Bearer " ++ token)))
  IsFor (registering_job id hostname hash) r =
      (r.url ≡ start.base_url ++ (codes "/api/v1/jobs/" ++ (to_string id ++ codes "/register")))
      × (r.content_type ≡ codes "application/json")
      × (r.body
          ≡ given
              (json.dump (json.object ((codes "hash", hash) ∷ (codes "hostname", hostname) ∷ []))))
  IsFor (registering_node hash node) r =
      (r.url ≡ start.base_url ++ (codes "/api/v1/nodes/" ++ (hash ++ codes "/register")))
      × (r.content_type ≡ codes "application/json")
      × (r.body ≡ given (json.dump node))
  IsFor (getting path) r = (r.url ≡ start.base_url ++ path) × (r.body ≡ no_body)

  -- From the requests `before` to those `after`, the last one first: one for each call, in order.
  abbrev pub Sends : List (Call J) → List Request → List Request → Type 0
  Sends [] before after = after ≡ before
  Sends (call ∷ calls) before after = (r : Request) × IsFor call r × Sends calls (r ∷ before) after

  abbrev Adds : Call J → CurlClient → CurlClient → Type 0
  Adds call client c = (r : Request) × IsFor call r × (c.sent ≡ r ∷ client.sent)

  module _ (encode64 : Bytes → Bytes) (server : Server) where
    post_body-given :
        (client : CurlClient) (text : Bytes)
        → text ≢ []
        → post_body encode64 client text ≡ given text
    unfolding post_body
    post_body-given client [] h = absurd (h refl)
    post_body-given client (c ∷ s) h = refl

    bearer :
        (client : CurlClient) (token : Bytes)
        → client.token ≡ token
        → (token ≡ [])
          ⊎ (construct_auth_header encode64 client ≡ codes "Authorization: Bearer " ++ token)
    unfolding construct_auth_header
    bearer client [] e = inl refl
    bearer client (c ∷ s) e = inr (rw e refl)

    abbrev Sent : {B : Type 0} → CurlClient → Request → CurlClient × B → Type 0
    Sent client r (c, _) = c.sent ≡ r ∷ client.sent

    sent_lem :
        (client : CurlClient) (r : Request) (o : Option J)
        → Gives (Sent {B = J} client r) (do j ← o; some (record_request client r, j))
    unfolding record_request
    sent_lem client r none = tt
    sent_lem client r (some j) = refl

    post-Sent :
        (client : CurlClient) (path text content_type : Bytes)
        → Gives
            (Sent {B = J} client (post_request encode64 client path text content_type))
            (post json encode64 server client path text content_type)
    unfolding post
    post-Sent client path text content_type =
        sent_lem client (post_request encode64 client path text content_type)
          (response json (server (post_request encode64 client path text content_type)))

    get-Sent :
        (client : CurlClient) (path : Bytes)
        → Gives
            (Sent {B = J} client (get_request encode64 client path))
            (get json encode64 server client path)
    unfolding get
    get-Sent client path =
        sent_lem client (get_request encode64 client path)
          (response json (server (get_request encode64 client path)))

    abbrev login_request : CurlClient → Request
    login_request client =
        post_request encode64 client (codes "/oauth/token") (codes "grant_type=client_credentials")
          urlencoded

    abbrev logout_request : CurlClient → Request
    logout_request client =
        post_request encode64 client (codes "/oauth/revoke") (logout_payload client) urlencoded

    -- Storing or dropping the token sends nothing.
    login-Sent :
        (client : CurlClient)
        → Gives
            (Sent {B = Bool} client (
              post_request encode64 client
                (codes "/oauth/token")
                (codes "grant_type=client_credentials")
                urlencoded))
            (login json encode64 server client)
    unfolding login store_token
    login-Sent client =
        let r = login_request client in
        Gives-bind (Sent {B = Bool} client r)
          (post json encode64 server client (codes "/oauth/token")
            (codes "grant_type=client_credentials") urlencoded)
          _
          (λ (c, answer) e.
            let same : c.sent ≡ r ∷ client.sent =
              Gives-some (Sent {B = J} client r) _
                (post-Sent client (codes "/oauth/token") (codes "grant_type=client_credentials")
                  urlencoded)
                e in
            Gives-if (Sent {B = Bool} client r) (json.contains answer (codes "access_token")) _ _
              (λ _.
                Gives-bind (Sent {B = Bool} client r)
                  (json.get_string answer (codes "access_token")) _ (λ token _. same))
              (λ _. same))

    logout-Sent :
        (client : CurlClient)
        → Gives
            (Sent {B = Bool} client (
              post_request encode64 client
                (codes "/oauth/revoke")
                (logout_payload client)
                urlencoded))
            (logout json encode64 server client)
    unfolding logout revoked
    logout-Sent client =
        let r = logout_request client in
        Gives-bind (Sent {B = Bool} client r)
          (post json encode64 server client (codes "/oauth/revoke") (logout_payload client)
            urlencoded)
          _
          (λ (c, answer) e.
            let same : c.sent ≡ r ∷ client.sent =
              Gives-some (Sent {B = J} client r) _
                (post-Sent client (codes "/oauth/revoke") (logout_payload client) urlencoded) e in
            Gives-if (Sent {B = Bool} client r) (json.contains answer (codes "error")) _ _
              (λ _.
                Gives-bind (Sent {B = Bool} client r) (json.get_string answer (codes "error")) _
                  (λ reason _. same))
              (λ _. same))

    perform-Adds :
        (call : Call J) (client : CurlClient)
        → ((j : J) → json.dump j ≢ [])
        → IsSound encode64 start client
        → Gives (Adds call client) (perform json encode64 server call client)
    unfolding perform register_job register_node post_request get_request logout_payload post_body
    perform-Adds logging_in client dumps sound =
        Gives-bind (Adds logging_in client) (login json encode64 server client) _ (λ (c, b) e.
          let h = Gives-some (Sent {B = Bool} client _) _ (login-Sent client) e in
          (_, (rw sound.same_url refl, refl, refl), h))
    perform-Adds logging_out client dumps sound =
        Gives-bind (Adds logging_out client) (logout json encode64 server client) _ (λ (c, b) e.
          let h = Gives-some (Sent {B = Bool} client _) _ (logout-Sent client) e in
          (
            _,
            (
              rw sound.same_url refl,
              refl,
              (client.token, rw sound.same_id refl, bearer client client.token refl),
            ),
            h,
          ))
    perform-Adds (registering_job id hostname hash) client dumps sound =
        Gives-bind (Adds (registering_job id hostname hash) client)
          (post json encode64 server client _ _ _) _
          (λ (c, answer) e.
            let h = Gives-some (Sent {B = J} client _) _ (post-Sent client _ _ _) e in
            (_, (rw sound.same_url refl, refl, post_body-given client _ (dumps _)), h))
    perform-Adds (registering_node hash node) client dumps sound =
        Gives-bind (Adds (registering_node hash node) client)
          (post json encode64 server client _ _ _) _
          (λ (c, answer) e.
            let h = Gives-some (Sent {B = J} client _) _ (post-Sent client _ _ _) e in
            (_, (rw sound.same_url refl, refl, post_body-given client _ (dumps _)), h))
    perform-Adds (getting path) client dumps sound =
        Gives-bind (Adds (getting path) client) (get json encode64 server client path) _
          (λ (c, answer) e.
            let h = Gives-some (Sent {B = J} client _) _ (get-Sent client path) e in
            (_, (rw sound.same_url refl, refl), h))

    run-Sends :
        (calls : List (Call J)) (client : CurlClient)
        → ((j : J) → json.dump j ≢ [])
        → IsSound encode64 start client
        → Gives (λ c. Sends calls client.sent c.sent) (run json encode64 server calls client)
    unfolding run
    run-Sends [] client dumps sound = refl
    run-Sends (call ∷ calls) client dumps sound =
        Gives-bind (λ c. Sends (call ∷ calls) client.sent c.sent)
          (perform json encode64 server call client) _
          (λ c e.
            let sound' =
              Gives-some (IsSound encode64 start) _
                (perform_lem json encode64 server start call client dumps sound) e in
            let (r, for_call, added) =
              Gives-some (Adds call client) _ (perform-Adds call client dumps sound) e in
            Gives-map (λ b. Sends calls c.sent b.sent) _ (run json encode64 server calls c)
              (λ b rest. (r, for_call, subst (λ before. Sends calls before b.sent) added rest))
              (run-Sends calls c dumps sound'))

-- If no JSON value has an empty text: whatever the server answers, in any session of calls that ends
-- without an exception there is one request for each call, in the order of the calls. It has the path
-- of the call and, where it posts, its type of content and exactly its fields: the grant; the id of the
-- client and the token to revoke, which is the one that the request itself bears, or empty; or the
-- text of its JSON value. Every request went to the address of the client, with its credentials or
-- with a token that is not empty; the address and the credentials are unchanged.
pub session_lem :
    {J : Type 0} (json : Json J) (encode64 : Bytes → Bytes) (server : Server)
    (base_url client_id client_secret : Bytes) (calls : List (Call J)) (client : CurlClient)
    → ((j : J) → json.dump j ≢ [])
    → run json encode64 server calls (construct base_url client_id client_secret) ≡ some client
    → IsSound encode64 (construct base_url client_id client_secret) client
      × Sends json (construct base_url client_id client_secret) calls [] client.sent
unfolding construct
session_lem json encode64 server base_url client_id client_secret calls client dumps h =
    let start = construct base_url client_id client_secret in
    (
      run-IsSound json encode64 server base_url client_id client_secret calls client dumps h,
      Gives-some (λ c. Sends json start calls [] c.sent) _
          (run-Sends json start encode64 server calls start dumps
            (construct-IsSound encode64 base_url client_id client_secret))
          h,
    )
