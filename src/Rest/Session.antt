-- ===== src/Rest/Session.antt =====
-- What a session of calls of CurlClient sends.
use xbat_ginkgo.Base.{
  ℕ, ◌≡◌, ◌≢◌, refl, ◌⊎◌, inl, inr, Bool, true, false, List, [], ◌∷◌, ◌++◌, Option, none, some,
  Bytes, codes, All, ◌>>=◌,
}
use xbat_ginkgo.Base.Gives.{Gives, Gives-bind, Gives-if, Gives-some}
use xbat_ginkgo.Rest.{
  Json, stdin, stale, Request, CurlClient, Server, construct, construct_auth_header, post_body,
  post_request, get_request, record_request, urlencoded, logout_payload, response, post, get,
  store_token, login, revoked, logout, register_job, register_node,
}

-- The calls that the daemon makes of a client.
pub data Call {ℓ} (J : Type ℓ) : Type ℓ where
  logging_in : Call J
  logging_out : Call J
  registering_job : ℕ → Bytes → Bytes → Call J
  registering_node : Bytes → J → Call J
  getting : Bytes → Call J

-- Of the one who owns the credentials of `start`: with them as long as there is no token, else with
-- a token that is not empty.
abbrev pub IsAuthorized : (Bytes → Bytes) → CurlClient → Request → Type 0
IsAuthorized encode64 start r =
    (r.auth_header
      ≡ codes "Authorization: Basic "
        ++ encode64 (start.client_id ++ (codes ":" ++ start.client_secret)))
    ⊎ ((c : ℕ) × (token : Bytes) × (r.auth_header ≡ codes "Authorization: Bearer " ++ c ∷ token))

abbrev pub IsSafe : (Bytes → Bytes) → CurlClient → Request → Type 0
IsSafe encode64 start r =
    IsAuthorized encode64 start r
    × (r.body ≢ stale)
    × (r.body ≢ stdin)
    × ((path : Bytes) × (r.url ≡ start.base_url ++ path))

-- The client still has the address and the credentials, and what it has sent is as it should be.
pub record IsSound (encode64 : Bytes → Bytes) (start client : CurlClient) : Type 0 where
  pub same_url : client.base_url ≡ start.base_url
  pub same_id : client.client_id ≡ start.client_id
  pub same_secret : client.client_secret ≡ start.client_secret
  pub safe : All (IsSafe encode64 start) client.sent

module _ {J : Type 0} (json : Json J) (encode64 : Bytes → Bytes) (server : Server) where
  unfoldable pub perform : Call J → CurlClient → Option CurlClient
  unfolding login logout register_job register_node get
  perform logging_in client = do (c, _) ← login json encode64 server client; some c
  perform logging_out client = do (c, _) ← logout json encode64 server client; some c
  perform (registering_job id hostname hash) client = do
    (c, _) ← register_job json encode64 server client id hostname hash
    some c
  perform (registering_node hash node) client = do
    (c, _) ← register_node json encode64 server client hash node
    some c
  perform (getting path) client = do (c, _) ← get json encode64 server client path; some c

  unfoldable pub run : List (Call J) → CurlClient → Option CurlClient
  unfolding perform
  run [] client = some client
  run (call ∷ calls) client = do c ← perform call client; run calls c

module _ (encode64 : Bytes → Bytes) (start : CurlClient) where
  auth_lem :
      (client : CurlClient)
      → IsSound encode64 start client
      → (token : Bytes) → client.token ≡ token
      → (construct_auth_header encode64 client
          ≡ codes "Authorization: Basic "
            ++ encode64 (start.client_id ++ (codes ":" ++ start.client_secret)))
        ⊎ ((c : ℕ) × (s : Bytes) × (construct_auth_header encode64 client
              ≡ codes "Authorization: Bearer " ++ c ∷ s))
  unfolding construct_auth_header
  auth_lem client sound [] e = inl (rw (e, sound.same_id, sound.same_secret) refl)
  auth_lem client sound (c ∷ s) e = inr (c, s, rw e refl)

  post_request-IsSafe :
      (client : CurlClient) (path text content_type : Bytes)
      → IsSound encode64 start client
      → text ≢ []
      → IsSafe encode64 start (post_request encode64 client path text content_type)
  unfolding post_request post_body
  post_request-IsSafe client path [] content_type sound nonempty = absurd (nonempty refl)
  post_request-IsSafe client path (c ∷ s) content_type sound nonempty = (
    auth_lem client sound client.token refl,
    (λ h. cc),
    (λ h. cc),
    (path, rw sound.same_url refl),
  )

  get_request-IsSafe :
      (client : CurlClient) (path : Bytes)
      → IsSound encode64 start client
      → IsSafe encode64 start (get_request encode64 client path)
  unfolding get_request
  get_request-IsSafe client path sound = (
    auth_lem client sound client.token refl,
    (λ h. cc),
    (λ h. cc),
    (path, rw sound.same_url refl),
  )

  record_request-IsSound :
      (client : CurlClient) (r : Request)
      → IsSound encode64 start client
      → IsSafe encode64 start r
      → IsSound encode64 start (record_request client r)
  unfolding record_request
  record_request-IsSound client r sound safe = record {
    same_url = sound.same_url;
    same_id = sound.same_id;
    same_secret = sound.same_secret;
    safe = (safe, sound.safe);
  }

  with_token-IsSound :
      (client : CurlClient) (token : Bytes)
      → IsSound encode64 start client
      → IsSound encode64 start (record client { token = token })
  with_token-IsSound client token sound = record {
    same_url = sound.same_url;
    same_id = sound.same_id;
    same_secret = sound.same_secret;
    safe = sound.safe;
  }

module _ {J : Type 0} (json : Json J) (encode64 : Bytes → Bytes) (server : Server)
    (start : CurlClient) where
  abbrev IsKept : {B : Type 0} → CurlClient × B → Type 0
  IsKept (client, _) = IsSound encode64 start client

  sent_lem :
      (client : CurlClient) (r : Request)
      → IsSound encode64 start client
      → IsSafe encode64 start r
      → (o : Option J) → Gives (IsKept {B = J}) (do j ← o; some (record_request client r, j))
  sent_lem client r sound safe none = tt
  sent_lem client r sound safe (some j) = record_request-IsSound encode64 start client r sound safe

  post_lem :
      (client : CurlClient) (path text content_type : Bytes)
      → IsSound encode64 start client
      → text ≢ []
      → Gives (IsKept {B = J}) (post json encode64 server client path text content_type)
  unfolding post
  post_lem client path text content_type sound nonempty =
      sent_lem client (post_request encode64 client path text content_type) sound
        (post_request-IsSafe encode64 start client path text content_type sound nonempty)
        (response json (server (post_request encode64 client path text content_type)))

  get_lem :
      (client : CurlClient) (path : Bytes)
      → IsSound encode64 start client
      → Gives (IsKept {B = J}) (get json encode64 server client path)
  unfolding get
  get_lem client path sound =
      sent_lem client (get_request encode64 client path) sound
        (get_request-IsSafe encode64 start client path sound)
        (response json (server (get_request encode64 client path)))

  login_lem :
      (client : CurlClient)
      → IsSound encode64 start client
      → Gives IsKept (login json encode64 server client)
  unfolding login store_token
  login_lem client sound =
      Gives-bind (IsKept {B = Bool})
        (post json encode64 server client (codes "/oauth/token")
          (codes "grant_type=client_credentials") urlencoded)
        _
        (λ (c, answer) e.
          let sound' =
            Gives-some (IsKept {B = J}) _
              (post_lem client (codes "/oauth/token") (codes "grant_type=client_credentials")
                urlencoded sound (λ h. cc))
              e in
          Gives-if (IsKept {B = Bool}) (json.contains answer (codes "access_token")) _ _
            (λ _.
              Gives-bind (IsKept {B = Bool}) (json.get_string answer (codes "access_token")) _
                (λ token _. with_token-IsSound encode64 start c token sound'))
            (λ _. sound'))

  logout_lem :
      (client : CurlClient)
      → IsSound encode64 start client
      → Gives IsKept (logout json encode64 server client)
  unfolding logout revoked logout_payload
  logout_lem client sound =
      Gives-bind (IsKept {B = Bool})
        (post json encode64 server client (codes "/oauth/revoke") (logout_payload client)
          urlencoded)
        _
        (λ (c, answer) e.
          let sound' =
            Gives-some (IsKept {B = J}) _
              (post_lem client (codes "/oauth/revoke") (logout_payload client) urlencoded sound
                (λ h. cc))
              e in
          let cleared = with_token-IsSound encode64 start c [] sound' in
          Gives-if (IsKept {B = Bool}) (json.contains answer (codes "error")) _ _
            (λ _.
              Gives-bind (IsKept {B = Bool}) (json.get_string answer (codes "error")) _
                (λ reason _. cleared))
            (λ _. cleared))

  pub perform_lem :
      (call : Call J) (client : CurlClient)
      → ((j : J) → json.dump j ≢ [])
      → IsSound encode64 start client
      → Gives (IsSound encode64 start) (perform json encode64 server call client)
  unfolding perform register_job register_node
  perform_lem logging_in client dumps sound =
      Gives-bind (IsSound encode64 start) (login json encode64 server client) _
        (λ (c, b) e. Gives-some (IsKept {B = Bool}) _ (login_lem client sound) e)
  perform_lem logging_out client dumps sound =
      Gives-bind (IsSound encode64 start) (logout json encode64 server client) _
        (λ (c, b) e. Gives-some (IsKept {B = Bool}) _ (logout_lem client sound) e)
  perform_lem (registering_job id hostname hash) client dumps sound =
      Gives-bind (IsSound encode64 start) (post json encode64 server client _ _ _) _
        (λ (c, answer) e. Gives-some (IsKept {B = J}) _ (post_lem client _ _ _ sound (dumps _)) e)
  perform_lem (registering_node hash node) client dumps sound =
      Gives-bind (IsSound encode64 start) (post json encode64 server client _ _ _) _
        (λ (c, answer) e. Gives-some (IsKept {B = J}) _ (post_lem client _ _ _ sound (dumps _)) e)
  perform_lem (getting path) client dumps sound =
      Gives-bind (IsSound encode64 start) (get json encode64 server client path) _
        (λ (c, answer) e. Gives-some (IsKept {B = J}) _ (get_lem client path sound) e)

  run_lem :
      (calls : List (Call J)) (client : CurlClient)
      → ((j : J) → json.dump j ≢ [])
      → IsSound encode64 start client
      → Gives (IsSound encode64 start) (run json encode64 server calls client)
  unfolding run
  run_lem [] client dumps sound = sound
  run_lem (call ∷ calls) client dumps sound =
      Gives-bind (IsSound encode64 start) (perform json encode64 server call client) _ (λ c e.
        run_lem calls c dumps
          (Gives-some (IsSound encode64 start) _ (perform_lem call client dumps sound) e))

pub construct-IsSound :
    (encode64 : Bytes → Bytes) (base_url client_id client_secret : Bytes)
    → IsSound encode64
        (construct base_url client_id client_secret)
        (construct base_url client_id client_secret)
unfolding construct
construct-IsSound encode64 base_url client_id client_secret = record {
  same_url = refl;
  same_id = refl;
  same_secret = refl;
  safe = tt;
}

-- If no JSON value has an empty text: in any session of calls that ends without an exception every
-- request went to the address of the client, with its credentials or with a token that is not empty,
-- and the address and the credentials are unchanged.
pub run-IsSound :
    {J : Type 0} (json : Json J) (encode64 : Bytes → Bytes) (server : Server)
    (base_url client_id client_secret : Bytes) (calls : List (Call J)) (client : CurlClient)
    → ((j : J) → json.dump j ≢ [])
    → run json encode64 server calls (construct base_url client_id client_secret) ≡ some client
    → IsSound encode64 (construct base_url client_id client_secret) client
run-IsSound json encode64 server base_url client_id client_secret calls client dumps h =
    let start = construct base_url client_id client_secret in
    Gives-some (IsSound encode64 start) _
      (run_lem json encode64 server start calls start dumps
        (construct-IsSound encode64 base_url client_id client_secret))
      h

abbrev pub IsCleared : (Bytes → Bytes) → Server → CurlClient → CurlClient × Bool → Type 0
IsCleared encode64 server client (client', ok) =
    let revocation =
      post_request encode64 client (codes "/oauth/revoke") (logout_payload client) urlencoded in
    (client'.token ≡ [])
    × (client'.sent ≡ revocation ∷ client.sent)
    × (server revocation ≡ none → ok ≡ true)

module _ {J : Type 0} (json : Json J) (encode64 : Bytes → Bytes) (server : Server)
    (client : CurlClient) where
  abbrev revocation : Request
  revocation =
      post_request encode64 client (codes "/oauth/revoke") (logout_payload client) urlencoded

  logout_parsed :
      (text : Bytes)
      → server revocation ≡ some text
      → (p : Option J) → json.parse text ≡ p
      → Gives (IsCleared encode64 server client) (logout json encode64 server client)
  unfolding logout post response revoked record_request
  logout_parsed text e none parsed = rw (e, parsed) tt
  logout_parsed text e (some j) parsed =
      let P = IsCleared encode64 server client in
      let unreached : (ok : Bool) → server revocation ≡ none → ok ≡ true = λ ok h. cc in
      rw (e, parsed)
        (Gives-if P (json.contains j (codes "error")) _ _
          (λ _.
            Gives-bind P (json.get_string j (codes "error")) _
              (λ reason _. (refl, refl, unreached false)))
          (λ _. (refl, refl, unreached true)))

  logout_answered :
      (o : Option Bytes)
      → server revocation ≡ o
      → Gives (IsCleared encode64 server client) (logout json encode64 server client)
  unfolding logout post response revoked record_request
  logout_answered none e = rw (e, json.contains-null (codes "error")) (refl, refl, (λ _. refl))
  logout_answered (some text) e = logout_parsed text e (json.parse text) refl

-- If `logout` ends without an exception, then whatever the server answers the token is cleared and
-- the request to revoke it, which names it, was sent last; and `logout` reports success even if the
-- server was not reached.
pub logout-IsCleared :
    {J : Type 0} (json : Json J) (encode64 : Bytes → Bytes) (server : Server) (client : CurlClient)
    (result : CurlClient × Bool)
    → logout json encode64 server client ≡ some result
    → IsCleared encode64 server client result
logout-IsCleared json encode64 server client result h =
    Gives-some (IsCleared encode64 server client) _
      (logout_answered json encode64 server client _ refl) h
