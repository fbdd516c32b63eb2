-- ===== src/Pm/Clob/Session.antt =====
-- The state of `ClobClient`, and a run of it: a new state, with a value or what was thrown.
use polymarket_cpp.Prelude.{
  ℕ, ◌/◌, Bool, Option, ◌⊎◌, [], Bytes, String, codes, is_empty, ◌==◌, if◌then◌else◌, Result, ok,
  err, Error, invalid_argument, ◌>>=◌ as bind, ◌++◌, length, replicate,
}
use polymarket_cpp.Net.HttpClient.Requests.{
  Headers, HttpResponse, HttpsClient, Outcome, response, thrown, Failure, Attempt, get, post,
  post_once, make_client, default_options,
}
use polymarket_cpp.Pm.Feeds.{ApiCreds}
use polymarket_cpp.Pm.U256.{U256Library}
use polymarket_cpp.Pm.Crypto.{CryptoLibrary}
use polymarket_cpp.Pm.Hex.{from_hex, eth_address_from_hex}
use polymarket_cpp.Pm.Keys.{key_from_hex, address}
use polymarket_cpp.Pm.Auth.{l1_headers, l2_headers}
use polymarket_cpp.Pm.Double.{DoubleLibrary}

-- An empty text stands for what is not given; the signature type is one of 0 to 3.
pub record ClobConfig : Type 0 where
  pub rest_host : Bytes
  pub gamma_host : Bytes
  pub private_key_hex : Bytes
  pub funder : Bytes
  pub signature_type : ℕ
  pub builder : Bytes
  pub creds : ApiCreds

-- The members that stay as the constructor made them.
pub record Identity : Type 0 where
  pub signature_type : ℕ
  pub signer : Bytes
  pub signer_address : Bytes
  pub funder_address : Bytes
  pub builder : Bytes
  pub builder_text : Bytes

pub data ClobError : Type 0 where
  connection : Failure → ClobError
  bad_status : Bytes → ℕ → Bytes → ClobError
  exception : Error → ClobError
  heartbeat_id_mismatch : Bytes → Bytes → ClobError

pub data ClobResult (A : Type 0) : Type 0 where
  failed : ClobError → ClobResult A
  done : A → ClobResult A

-- The members that change.
pub record ClobClient : Type 0 where
  pub http : HttpsClient
  pub gamma : HttpsClient
  pub creds : ApiCreds

abbrev pub Run : Type 0 → Type 0
Run A = ClobClient → ClobClient × ClobResult A

abbrev pub and_then :
    {A B : Type 0} → ClobClient × ClobResult A → (A → Run B) → ClobClient × ClobResult B
and_then (c, done a) f = f a c
and_then (c, failed e) f = (c, failed e)

infixl 5 ◌>>=◌ ◌>>◌
abbrev pub ◌>>=◌ : {A B : Type 0} → Run A → (A → Run B) → Run B
(m >>= f) c = and_then (m c) f

abbrev pub ◌>>◌ : {B : Type 0} → Run (Unit {0}) → Run B → Run B
(m >> k) c = and_then (m c) (λ _. k)

abbrev pub return : {A : Type 0} → A → Run A
return a c = (c, done a)

abbrev pub throw : {A : Type 0} → ClobError → Run A
throw e c = (c, failed e)

-- A call that may throw and does not touch the client.
abbrev pub lift : {A : Type 0} → Result A → Run A
lift (ok a) c = (c, done a)
lift (err e) c = (c, failed (exception e))

-- The JSON of an order, in the order of the fields.
pub record OrderJson : Type 0 where
  pub salt : ℕ
  pub maker : Bytes
  pub signer : Bytes
  pub token_id : Bytes
  pub maker_amount : Bytes
  pub taker_amount : Bytes
  pub side : Bytes
  pub expiration : Bytes
  pub signature_type : ℕ
  pub timestamp : Bytes
  pub metadata : Bytes
  pub builder : Bytes
  pub signature : Bytes

pub record PostOrderBody : Type 0 where
  pub order : OrderJson
  pub owner : Bytes
  pub order_type : String
  pub defer_exec : Bool
  pub post_only : Bool

-- glaze, and the clock and random words by the tries that the HTTPS client has made.
pub record ClobLibrary (dbl : DoubleLibrary) : Type 0 where
  pub clock_ms : ℕ → ℕ
  pub random_u64 : ℕ → ℕ
  pub parse_creds : Bytes → Result ApiCreds
  pub read_tick_size : Bytes → Result (String ⊎ dbl.Double)
  -- `std::abs(std::stod(k) - d) < 1e-12`
  pub near : String → dbl.Double → Bool
  pub read_neg_risk : Bytes → Result Bool
  -- `error_msg` and `heartbeat_id` of a mismatch, where the body reads as one.
  pub read_mismatch : Bytes → Option (Option Bytes × Option Bytes)
  pub write_cancel : Bytes → Bytes
  pub write_heartbeat : Bytes → Bytes
  pub write_order : PostOrderBody → Bytes

abbrev pub answered : ClobClient → HttpsClient × Outcome → ClobClient × ClobResult HttpResponse
answered c (http, response r) = (record c { http = http }, done r)
answered c (http, thrown f) = (record c { http = http }, failed (connection f))

abbrev gamma_answered : ClobClient → HttpsClient × Outcome → ClobClient × ClobResult HttpResponse
gamma_answered c (gamma, response r) = (record c { gamma = gamma }, done r)
gamma_answered c (gamma, thrown f) = (record c { gamma = gamma }, failed (connection f))

unfoldable pub require_200 : Bytes → HttpResponse → Run Bytes
require_200 what r c =
    if r.status == 200 then (c, done r.body) else (c, failed (bad_status what r.status r.body))

module _ (transport : ℕ → Attempt) where
  abbrev pub http_get : Bytes → Headers → Run HttpResponse
  http_get target headers c = answered c (get transport target headers c.http)

  abbrev pub http_post : Bytes → Bytes → Headers → Run HttpResponse
  http_post target body headers c =
      answered c (post transport target body headers (codes "application/json") c.http)

  abbrev pub http_post_once : Bytes → Bytes → Headers → Run HttpResponse
  http_post_once target body headers c =
      answered c (post_once transport target body headers (codes "application/json") c.http)

  -- `gamma_get` and `gamma_markets`, over the second client.
  unfoldable pub gamma_get : Bytes → Run Bytes
  unfolding require_200
  gamma_get path_query = do
    r ← λ c. gamma_answered c (get transport path_query [] c.gamma)
    require_200 (codes "gamma") r

  unfoldable pub gamma_markets : Bytes → Run Bytes
  unfolding gamma_get
  gamma_markets query = gamma_get (codes "/markets?" ++ query)

  module _ (dbl : DoubleLibrary) (lib : ClobLibrary dbl) (big : U256Library)
      (crypto : CryptoLibrary big) (self : Identity) where
    abbrev pub seconds : ClobClient → ℕ
    seconds c = lib.clock_ms c.http.tries / 1000

    abbrev pub l1_now : ℕ → Run Headers
    l1_now nonce c = lift (l1_headers big crypto self.signer (seconds c) nonce) c

    unfoldable pub derive_api_key : ℕ → Run ApiCreds
    unfolding require_200
    derive_api_key nonce = do
      headers ← l1_now nonce
      r ← http_get (codes "/auth/derive-api-key") headers
      body ← require_200 (codes "derive-api-key") r
      lift (lib.parse_creds body)

    unfoldable pub create_api_key : ℕ → Run ApiCreds
    unfolding require_200
    create_api_key nonce = do
      headers ← l1_now nonce
      r ← http_post (codes "/auth/api-key") [] headers
      body ← require_200 (codes "create-api-key") r
      lift (lib.parse_creds body)

    abbrev pub keep_creds : ApiCreds → Run ApiCreds
    keep_creds creds c = (record c { creds = creds }, done creds)

    unfoldable pub ensure_l2_creds : Run ApiCreds
    unfolding derive_api_key
    ensure_l2_creds c =
        if is_empty c.creds.api_key then (derive_api_key 0 >>= keep_creds) c else (c, done c.creds)

    abbrev pub sign_l2 : Bytes → Bytes → Bytes → ApiCreds → Run Headers
    sign_l2 method path body creds c =
        lift (l2_headers big crypto creds self.signer_address (seconds c) method path body) c

    unfoldable pub l2_now : Bytes → Bytes → Bytes → Run Headers
    unfolding ensure_l2_creds
    l2_now method path body = ensure_l2_creds >>= sign_l2 method path body

-- `parse_bytes32`
unfoldable pub parse_bytes32 : Bytes → Result Bytes
parse_bytes32 hex =
    bind (from_hex hex) λ b.
      if length b == 32 then ok b else err (invalid_argument "pm: builder code must be 32 bytes")

-- The constructor.
module _ (big : U256Library) (crypto : CryptoLibrary big) where
  abbrev funder_of : ClobConfig → Bytes → Result Bytes
  funder_of cfg signer_address =
      if is_empty cfg.funder then ok signer_address else eth_address_from_hex cfg.funder

  abbrev builder_of : ClobConfig → Result Bytes
  builder_of cfg = if is_empty cfg.builder then ok (replicate 32 0) else parse_bytes32 cfg.builder

  unfoldable pub make_clob : ClobConfig → Result (Identity × ClobClient)
  unfolding parse_bytes32
  make_clob cfg = bind (make_client cfg.rest_host (codes "443") default_options) λ http.
      bind (make_client cfg.gamma_host (codes "443") default_options) λ gamma.
        bind (key_from_hex cfg.private_key_hex) λ key.
          bind (funder_of cfg (address big crypto key)) λ funder. bind (builder_of cfg) λ builder.
            ok (
              record {
                signature_type = cfg.signature_type;
                signer = key;
                signer_address = address big crypto key;
                funder_address = funder;
                builder = builder;
                builder_text = cfg.builder;
              },
              record { http = http; gamma = gamma; creds = cfg.creds },
            )
