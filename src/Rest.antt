-- ===== src/Rest.antt =====
-- src/xbatd/src/CurlClient.{hpp,cpp}. The JSON library is an interface, the server an argument, and
-- so is `encode64`.
pub mod Session
pub mod Requests
use xbat_ginkgo.Base.{
  ℕ, ◌≡◌, Bool, true, false, List, [], ◌∷◌, ◌++◌, Option, none, some, Bytes, codes, if◌then◌else◌,
  ◌>>=◌,
}
use xbat_ginkgo.Text.Numbers.{to_string}

-- What is used of `nlohmann::json`: `none` is an exception. A `null` contains no key.
pub record Json {ℓ} (J : Type ℓ) : Type ℓ where
  pub null : J
  pub parse : Bytes → Option J
  pub contains : J → Bytes → Bool
  pub get_string : J → Bytes → Option Bytes
  pub get_number : J → Bytes → Option ℕ
  pub get_bool : J → Bytes → Option Bool
  pub object : List (Bytes × Bytes) → J
  pub dump : J → Bytes
  pub contains-null : (key : Bytes) → contains null key ≡ false
  pub get_number-null : (key : Bytes) → get_number null key ≡ none

-- What libcurl sends: `stale` is the text of an earlier call, which is freed by then.
pub data Body : Type 0 where
  no_body stdin stale : Body
  given : Bytes → Body

pub record Request : Type 0 where
  pub url : Bytes
  pub auth_header : Bytes
  pub content_type : Bytes
  pub body : Body

-- The members, whether the handle keeps a pointer to the fields of an earlier `post`, and what has
-- been sent, the last request first.
pub record CurlClient : Type 0 where
  pub base_url : Bytes
  pub client_id : Bytes
  pub client_secret : Bytes
  pub token : Bytes
  pub has_fields : Bool
  pub sent : List Request

-- `curl_easy_perform`: the body of the answer, `none` if it fails.
abbrev pub Server : Type 0
Server = Request → Option Bytes

unfoldable pub construct : Bytes → Bytes → Bytes → CurlClient
construct base_url client_id client_secret = record {
  base_url = base_url;
  client_id = client_id;
  client_secret = client_secret;
  token = [];
  has_fields = false;
  sent = [];
}

module _ (encode64 : Bytes → Bytes) where
  unfoldable pub construct_auth_header : CurlClient → Bytes
  construct_auth_header client = elim client.token [
    | [] ↦
        codes "Authorization: Basic "
        ++ encode64 (client.client_id ++ (codes ":" ++ client.client_secret))
    | c ∷ s ↦ codes "Authorization: Bearer " ++ c ∷ s
  ]

  -- What `post` sends as fields.
  unfoldable pub post_body : CurlClient → Bytes → Body
  post_body client [] = if client.has_fields then stale else stdin
  post_body client (c ∷ s) = given (c ∷ s)

  unfoldable pub post_request : CurlClient → Bytes → Bytes → Bytes → Request
  unfolding construct_auth_header post_body
  post_request client resource_path text content_type = record {
    url = client.base_url ++ resource_path;
    auth_header = construct_auth_header client;
    content_type = content_type;
    body = post_body client text;
  }

  unfoldable pub get_request : CurlClient → Bytes → Request
  unfolding construct_auth_header
  get_request client resource_path = record {
    url = client.base_url ++ resource_path;
    auth_header = construct_auth_header client;
    content_type = codes "application/json";
    body = no_body;
  }

unfoldable pub keeps_fields : Bool → Body → Bool
keeps_fields before (given s) = true
keeps_fields before no_body = before
keeps_fields before stdin = before
keeps_fields before stale = before

-- What is done with a request by both `post` and `get`.
unfoldable pub record_request : CurlClient → Request → CurlClient
unfolding keeps_fields
record_request client request = record client {
  has_fields = keeps_fields client.has_fields request.body;
  sent = request ∷ client.sent;
}

abbrev pub urlencoded : Bytes
urlencoded = codes "application/x-www-form-urlencoded"

unfoldable pub logout_payload : CurlClient → Bytes
logout_payload client =
    codes "client_id="
    ++ (client.client_id
        ++ (codes "&token=" ++ (client.token ++ codes "&token_type_hint=access_token")))

module _ {ℓ} {J : Type ℓ} (json : Json J) where
  -- An answer that is no JSON throws: `none`.
  unfoldable pub response : Option Bytes → Option J
  response none = some json.null
  response (some text) = json.parse text

  module _ (encode64 : Bytes → Bytes) (server : Server) where
    unfoldable pub post : CurlClient → Bytes → Bytes → Bytes → Option (CurlClient × J)
    unfolding post_request record_request response
    post client resource_path text content_type = do
      answer ← response (server (post_request encode64 client resource_path text content_type))
      some (
        record_request client (post_request encode64 client resource_path text content_type),
        answer,
      )

    pub get : CurlClient → Bytes → Option (CurlClient × J)
    unfolding get_request record_request response
    get client resource_path = do
      answer ← response (server (get_request encode64 client resource_path))
      some (record_request client (get_request encode64 client resource_path), answer)

    unfoldable pub store_token : CurlClient → J → Option (CurlClient × Bool)
    store_token client answer =
        if json.contains answer (codes "access_token")
        then (do
          token ← json.get_string answer (codes "access_token")
          some (record client { token = token }, true))
        else some (client, false)

    unfoldable pub login : CurlClient → Option (CurlClient × Bool)
    unfolding post store_token
    login client = do
      (client', answer) ←
          post client (codes "/oauth/token") (codes "grant_type=client_credentials") urlencoded
      store_token client' answer

    unfoldable pub revoked : CurlClient → J → Option (CurlClient × Bool)
    revoked client answer =
        if json.contains answer (codes "error")
        then (do _ ← json.get_string answer (codes "error"); some (client, false))
        else some (client, true)

    unfoldable pub logout : CurlClient → Option (CurlClient × Bool)
    unfolding post logout_payload revoked
    logout client = do
      (client', answer) ← post client (codes "/oauth/revoke") (logout_payload client) urlencoded
      revoked (record client' { token = [] }) answer

    unfoldable pub register_job : CurlClient → ℕ → Bytes → Bytes → Option (CurlClient × J)
    unfolding post
    register_job client job_id hostname hash =
        post client (codes "/api/v1/jobs/" ++ (to_string job_id ++ codes "/register"))
          (json.dump (json.object ((codes "hash", hash) ∷ (codes "hostname", hostname) ∷ [])))
          (codes "application/json")

    unfoldable pub register_node : CurlClient → Bytes → J → Option (CurlClient × J)
    unfolding post
    register_node client hash node =
        post client (codes "/api/v1/nodes/" ++ (hash ++ codes "/register")) (json.dump node)
          (codes "application/json")
