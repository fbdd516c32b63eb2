-- ===== src/Pm/Relayer.antt =====
-- pm/relayer.cpp: `RelayerClient` and the texts and headers of its requests. glaze, the clock and a transport
-- that the caller puts in are parameters.
pub mod Requests
pub mod Submit
use polymarket_cpp.Prelude.{
  ℕ, zero, suc, ◌+◌, ◌-◌, ◌≤◌, ◌<◌, Bool, true, false, ◌&&◌, ◌||◌, not, Option, none, some, List,
  [], ◌∷◌, ◌++◌, Bytes, codes, is_empty, ltb, leb, ◌==◌, bytes_eq, if◌then◌else◌, to_string, Result,
  ok, err, Error, runtime_error, invalid_argument, ◌>>=◌ as bind, ◌>>◌ as then_also, throw_if,
  bad_variant_access,
}
use polymarket_cpp.Net.HttpClient.Requests.{
  Headers, HttpResponse, HttpsClient, Outcome, response, thrown, Failure, Attempt, get, post,
  make_client, default_options,
}
use polymarket_cpp.Net.HttpClient.Url.{HttpsUrl, parse_https_url}
use polymarket_cpp.Pm.U256.{U256Library}
use polymarket_cpp.Pm.Crypto.{CryptoLibrary}
use polymarket_cpp.Pm.Hex.{to_hex0x, eth_address_from_hex}
use polymarket_cpp.Pm.Keys.{address}
use polymarket_cpp.Pm.DepositWallet.{DepositWalletCall, sign_deposit_wallet_batch}
use polymarket_cpp.Pm.Signing.{chain_id}
use polymarket_cpp.Pm.Relayer.Requests.{
  BuilderApiCreds, RelayerApiCreds, builder_complete, relayer_complete, build_builder_headers,
  build_deposit_wallet_create_request, build_deposit_wallet_batch_request, stoull,
}

pub record RelayerConfig : Type 0 where
  pub url : Bytes
  pub builder_creds : BuilderApiCreds
  pub relayer_creds : RelayerApiCreds

pub record RelayerTransaction : Type 0 where
  pub transaction_id : Bytes
  pub transaction_hash : Bytes

-- What a call throws: a failure of the transport, a status outside 200 to 299 with the action, or another.
pub data RelayerError : Type 0 where
  connection : Failure → RelayerError
  bad_status : Bytes → ℕ → Bytes → RelayerError
  exception : Error → RelayerError

pub data RelayerResult (A : Type 0) : Type 0 where
  failed : RelayerError → RelayerResult A
  done : A → RelayerResult A

-- `glz::generic`, as deep as the code looks: what stands in a field is a scalar, or is not looked into.
pub data Scalar (Number : Type 0) : Type 0 where
  boolean : Bool → Scalar Number
  number : Number → Scalar Number
  text : Bytes → Scalar Number
  other_scalar : Scalar Number

pub data Generic (Number : Type 0) : Type 0 where
  scalar : Scalar Number → Generic Number
  object : List (Bytes × Scalar Number) → Generic Number
  other_value : Generic Number

pub record RelayerLibrary : Type 1 where
  pub Number : Type 0
  -- `static_cast<std::uint64_t>` of a double.
  pub to_u64 : Number → ℕ
  pub read_generic : Bytes → Option (Generic Number)
  -- The two identifiers of a transaction, empty where they are not there.
  pub read_transaction : Bytes → Option (Bytes × Bytes)

-- The client over the state of a transport of the caller's.
pub record RelayerClient (S : Type 0) : Type 0 where
  pub http : HttpsClient
  pub outside : S

abbrev pub Run : Type 0 → Type 0 → Type 0
Run S A = RelayerClient S → RelayerClient S × RelayerResult A

abbrev pub and_then :
    {S A B : Type 0}
    → RelayerClient S × RelayerResult A
    → (A → Run S B)
    → RelayerClient S × RelayerResult B
and_then (c, done a) f = f a c
and_then (c, failed e) f = (c, failed e)

infixl 5 ◌>>=◌
abbrev pub ◌>>=◌ : {S A B : Type 0} → Run S A → (A → Run S B) → Run S B
(m >>= f) c = and_then (m c) f

abbrev pub lift : {S A : Type 0} → Result A → Run S A
lift (ok a) c = (c, done a)
lift (err e) c = (c, failed (exception e))

abbrev pub lookup_field : {N : Type 0} → Bytes → List (Bytes × Scalar N) → Option (Scalar N)
lookup_field key [] = none
lookup_field key ((k, v) ∷ rest) = if bytes_eq k key then some v else lookup_field key rest

unfoldable pub require_success : {S : Type 0} → Bytes → HttpResponse → Run S Bytes
require_success action r c = (
  c,
  if ltb r.status 200 || leb 300 r.status
      then failed (bad_status action r.status r.body)
      else done r.body,
)

abbrev transaction_of : Option (Bytes × Bytes) → Result RelayerTransaction
transaction_of none = err (runtime_error "relayer transaction response invalid")
transaction_of (some (id, hash)) =
    if is_empty id && is_empty hash
    then err (runtime_error "relayer transaction identifiers missing")
    else ok (record { transaction_id = id; transaction_hash = hash })

-- The constructor: the endpoint of the URL must have no path. A client is made where there is no transport.
unfoldable pub make_relayer : RelayerConfig → Bool → Result (HttpsUrl × Option HttpsClient)
make_relayer config has_transport = bind (parse_https_url config.url) λ endpoint.
    then_also
      (throw_if (not (bytes_eq endpoint.target (codes "/")))
        (invalid_argument "relayer URL must not contain a path"))
      (if has_transport
        then ok (endpoint, none)
        else bind (make_client endpoint.host endpoint.port default_options)
            λ http. ok (endpoint, some http))

module _ (lib : RelayerLibrary) where
  abbrev pub parse_transaction : Bytes → Result RelayerTransaction
  parse_transaction body = transaction_of (lib.read_transaction body)

  -- `get_number()` of a value.
  abbrev number_of : Scalar lib.Number → Result ℕ
  number_of (number n) = ok (lib.to_u64 n)
  number_of _ = err bad_variant_access

  abbrev nonce_field : Scalar lib.Number → Result ℕ
  nonce_field (text t) = stoull t
  nonce_field v = number_of v

  abbrev nonce_missing : Result ℕ
  nonce_missing = err (runtime_error "relayer nonce missing")

  abbrev nonce_of_field : Option (Scalar lib.Number) → Result ℕ
  nonce_of_field (some v) = nonce_field v
  nonce_of_field none = nonce_missing

  unfoldable pub nonce_of : Option (Generic lib.Number) → Result ℕ
  unfolding stoull
  nonce_of none = err (runtime_error "relayer nonce response invalid")
  nonce_of (some (object fields)) = nonce_of_field (lookup_field (codes "nonce") fields)
  nonce_of (some (scalar (text t))) = stoull t
  nonce_of (some (scalar (number n))) = ok (lib.to_u64 n)
  nonce_of (some _) = nonce_missing

  abbrev deployed_missing : Result Bool
  deployed_missing = err (runtime_error "relayer deployed flag missing")

  abbrev deployed_of_field : Option (Scalar lib.Number) → Result Bool
  deployed_of_field (some (boolean b)) = ok b
  deployed_of_field (some (text t)) = ok (bytes_eq t (codes "true"))
  deployed_of_field _ = deployed_missing

  unfoldable pub deployed_of : Option (Generic lib.Number) → Result Bool
  deployed_of none = err (runtime_error "relayer deployed response invalid")
  deployed_of (some (scalar (boolean b))) = ok b
  deployed_of (some (object fields)) = deployed_of_field (lookup_field (codes "deployed") fields)
  deployed_of (some _) = deployed_missing

module _ {S : Type 0} (transport : ℕ → Attempt) (lib : RelayerLibrary)
    (callback : Option (Bytes → Bytes → Bytes → Headers → Run S HttpResponse)) where
  abbrev answered :
      RelayerClient S → HttpsClient × Outcome → RelayerClient S × RelayerResult HttpResponse
  answered c (http, response r) = (record c { http = http }, done r)
  answered c (http, thrown f) = (record c { http = http }, failed (connection f))

  abbrev own_request : Bytes → Bytes → Bytes → Headers → Run S HttpResponse
  own_request method target body headers c =
      if bytes_eq method (codes "GET")
      then answered c (get transport target headers c.http)
      else if bytes_eq method (codes "POST")
      then answered c (post transport target body headers (codes "application/json") c.http)
      else (c, failed (exception (invalid_argument "unsupported relayer HTTP method")))

  unfoldable pub request : Bytes → Bytes → Bytes → Headers → Run S HttpResponse
  request method target body headers = elim callback [
    | some transport_ ↦ transport_ method target body headers
    | none ↦ own_request method target body headers
  ]

  unfoldable pub get_nonce : Bytes → Run S ℕ
  unfolding nonce_of require_success
  get_nonce owner = do
    r ←
        request (codes "GET") (codes "/nonce?address=" ++ (to_hex0x owner ++ codes "&type=WALLET"))
          [] []
    body ← require_success (codes "nonce") r
    lift (nonce_of lib (lib.read_generic body))

  unfoldable pub get_deployed : Bytes → Run S Bool
  unfolding deployed_of require_success
  get_deployed wallet = do
    r ←
        request (codes "GET")
          (codes "/deployed?address=" ++ (to_hex0x wallet ++ codes "&type=WALLET")) [] []
    body ← require_success (codes "deployed") r
    lift (deployed_of lib (lib.read_generic body))

  unfoldable pub get_transaction : Bytes → Run S Bytes
  unfolding require_success
  get_transaction transaction_id = do
    r ← request (codes "GET") (codes "/transaction?id=" ++ transaction_id) [] []
    require_success (codes "transaction status") r

  module _ (big : U256Library) (crypto : CryptoLibrary big) (clock_s : RelayerClient S → ℕ)
      (config : RelayerConfig) where
    abbrev relayer_headers : Result Headers
    relayer_headers = bind (eth_address_from_hex config.relayer_creds.address) λ a. ok (
        (codes "RELAYER_API_KEY", config.relayer_creds.key)
        ∷ (codes "RELAYER_API_KEY_ADDRESS", to_hex0x a)
        ∷ [])

    unfoldable pub submit_headers : Bytes → ℕ → ℕ → Result Headers
    submit_headers body timestamp_s now =
        if builder_complete config.builder_creds
        then build_builder_headers big crypto config.builder_creds
            (if timestamp_s == 0 then now else timestamp_s) (codes "POST") (codes "/submit") body
        else if relayer_complete config.relayer_creds
        then relayer_headers
        else err (runtime_error "relayer submit credentials unavailable")

    abbrev pub send_submit : Bytes → Headers → Run S RelayerTransaction
    send_submit body headers = do
      r ← request (codes "POST") (codes "/submit") body headers
      answer ← require_success (codes "submit") r
      lift (parse_transaction lib answer)

    unfoldable pub submit : Bytes → ℕ → Run S RelayerTransaction
    unfolding submit_headers
    submit body timestamp_s c =
        (lift (submit_headers body timestamp_s (clock_s c)) >>= send_submit body) c

    unfoldable pub deploy_deposit_wallet : Bytes → ℕ → Run S RelayerTransaction
    unfolding submit
    deploy_deposit_wallet owner timestamp_s = do
      body ← lift (build_deposit_wallet_create_request owner)
      submit body timestamp_s

    unfoldable pub execute_deposit_wallet_batch :
        Bytes → Bytes → ℕ → ℕ → List (DepositWalletCall big) → ℕ → Run S RelayerTransaction
    unfolding submit
    execute_deposit_wallet_batch key wallet nonce deadline calls timestamp_s = do
      signature ←
          lift (sign_deposit_wallet_batch big crypto key chain_id wallet nonce deadline calls)
      body ← lift (
          build_deposit_wallet_batch_request big (address big crypto key) wallet nonce deadline
            calls signature)
      submit body timestamp_s
