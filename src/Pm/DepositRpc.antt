-- ===== src/Pm/DepositRpc.antt =====
-- pm/deposit_wallet_rpc.cpp: which deposit wallet an owner has, by calls of an Ethereum node. glaze's reading
-- of an answer is a parameter.
pub mod Answers
pub mod Refinement
use polymarket_cpp.Prelude.{
  ℕ, suc, ◌+◌, ◌-◌, Bool, true, false, ◌&&◌, ◌||◌, not, Option, none, some, [], ◌∷◌, ◌++◌, Bytes,
  String, codes, length, drop, replicate, all, ltb, ◌==◌, bytes_eq, starts_with, is_hex, is_upper,
  if◌then◌else◌, to_string, Result, ok, err, Error, runtime_error, ◌>>=◌ as bind, ℤ, pos,
}
use polymarket_cpp.Net.HttpClient.Requests.{
  Failure, Outcome, response, thrown, HttpResponse, HttpsClient, Attempt, to_lower, post,
  make_client, default_options,
}
use polymarket_cpp.Net.HttpClient.Url.{HttpsUrl, parse_https_url}
use polymarket_cpp.Pm.U256.{U256Library}
use polymarket_cpp.Pm.Crypto.{CryptoLibrary}
use polymarket_cpp.Pm.Hex.{to_hex0x, eth_address_from_hex}
use polymarket_cpp.Pm.DepositWallet.{
  DepositWalletCandidates, deposit_wallet_factory, derive_deposit_wallet_uups,
  derive_deposit_wallet_beacon,
}

pub data DepositWalletKind : Type 0 where
  uups_kind beacon_kind : DepositWalletKind

pub record DepositWalletResolution : Type 0 where
  pub owner : Bytes
  pub factory_beacon : Bytes
  pub candidates : DepositWalletCandidates
  pub uups_deployed : Bool
  pub beacon_deployed : Bool
  pub selected_kind : DepositWalletKind
  pub selected : Bytes

unfoldable pub selected_deployed : DepositWalletResolution → Bool
selected_deployed r = elim r.selected_kind [
  | uups_kind ↦ r.uups_deployed
  | beacon_kind ↦ r.beacon_deployed
]

abbrev pub deposit_wallet_kind_name : DepositWalletKind → String
deposit_wallet_kind_name uups_kind = "uups"
deposit_wallet_kind_name beacon_kind = "beacon"

-- What a call throws: `RpcError`, a failure of the transport, a status that is not 200, or another.
pub data RpcThrown : Type 0 where
  rpc_error : ℤ → Bytes → RpcThrown
  connection : Failure → RpcThrown
  http_status : ℕ → RpcThrown
  exception : Error → RpcThrown

pub data RpcResult (A : Type 0) : Type 0 where
  raised : RpcThrown → RpcResult A
  returned : A → RpcResult A

-- A run over the state of the callback.
abbrev pub Run : Type 0 → Type 0 → Type 0
Run S A = S → S × RpcResult A

abbrev pub and_then : {S A B : Type 0} → S × RpcResult A → (A → Run S B) → S × RpcResult B
and_then (s, returned a) f = f a s
and_then (s, raised e) f = (s, raised e)

infixl 5 ◌>>=◌
abbrev pub ◌>>=◌ : {S A B : Type 0} → Run S A → (A → Run S B) → Run S B
(m >>= f) s = and_then (m s) f

abbrev pub return : {S A : Type 0} → A → Run S A
return a s = (s, returned a)

abbrev pub lift : {S A : Type 0} → Result A → Run S A
lift (ok a) s = (s, returned a)
lift (err e) s = (s, raised (exception e))

abbrev pub is_zero_address : Bytes → Bool
is_zero_address address = all (λ b. b == 0) address

abbrev pub zero_address : Bytes
zero_address = replicate 20 0

unfoldable pub decode_abi_address : Bytes → Result Bytes
decode_abi_address text =
    if ltb (length text) 66
    then ok zero_address
    else eth_address_from_hex (codes "0x" ++ drop (length text - 40) text)

abbrev malformed : Error
malformed = runtime_error "deposit wallet RPC returned malformed bytecode"

-- The loop over the digits, with `nonzero`.
unfoldable pub scan_digits : Bool → Bytes → Result Bool
scan_digits nonzero [] = ok nonzero
scan_digits nonzero (c ∷ cs) =
    let rest = scan_digits (nonzero || not (c == b'0')) cs in
    if is_hex c then rest else err malformed

unfoldable pub has_contract_code : Bytes → Result Bool
unfolding scan_digits
has_contract_code code =
    if starts_with code (codes "0x") || starts_with code (codes "0X")
    then scan_digits false (drop 2 code)
    else err malformed

abbrev pub encoded_zero_address : Bytes
encoded_zero_address = codes "0x" ++ replicate 64 b'0'

-- `std::tolower` in the "C" locale, character by character.
abbrev pub lowered : Bytes → Bytes
lowered [] = []
lowered (c ∷ cs) = to_lower c ∷ lowered cs

-- `contains` of a text.
unfoldable pub contains_text : Bytes → Bytes → Bool
contains_text [] part = starts_with [] part
contains_text (c ∷ cs) part = starts_with (c ∷ cs) part || contains_text cs part

unfoldable pub contains_revert : Bytes → Bool
unfolding contains_text
contains_revert message = contains_text (lowered message) (codes "revert")

pub record RpcEnvelope : Type 0 where
  pub result : Option Bytes
  pub error : Option (ℤ × Bytes)

pub record HttpsEthRpc : Type 0 where
  pub endpoint : HttpsUrl
  pub client : HttpsClient
  pub id : ℕ

abbrev result_of : Option Bytes → RpcResult Bytes
result_of none = raised (exception (runtime_error "deposit wallet RPC result missing"))
result_of (some result) = returned result

-- What a response comes to.
abbrev pub envelope_result : Option RpcEnvelope → RpcResult Bytes
envelope_result none = raised (exception (runtime_error "deposit wallet RPC returned invalid JSON"))
envelope_result (some envelope) = elim envelope.error [
  | some (code, message) ↦ raised (rpc_error code message)
  | none ↦ result_of envelope.result
]

abbrev pub request_body : Bytes → Bytes → ℕ → Bytes
request_body method params_json id =
    codes "{\"jsonrpc\":\"2.0\",\"method\":\""
    ++ (method
        ++ (codes "\",\"params\":"
            ++ (params_json ++ (codes ",\"id\":" ++ (to_string id ++ codes "}")))))

-- A revert of `eth_call` stands for the address zero.
abbrev pub is_revert : ℤ → Bytes → Bool
is_revert (pos n) message = n == 3 || contains_revert message
is_revert _ message = contains_revert message

abbrev pub caught : Bytes → RpcResult Bytes → RpcResult Bytes
caught method (raised (rpc_error code message)) =
    if bytes_eq method (codes "eth_call") && is_revert code message
    then returned encoded_zero_address
    else raised (rpc_error code message)
caught method other = other

module _ (transport : ℕ → Attempt) (read_envelope : Bytes → Option RpcEnvelope) where
  abbrev pub response_result : Outcome → RpcResult Bytes
  response_result (thrown f) = raised (connection f)
  response_result (response r) =
      if r.status == 200
      then envelope_result (read_envelope r.body)
      else raised (http_status r.status)

  -- `HttpsEthRpc::call`; `++id_` is a `std::uint64_t` that counts the calls.
  unfoldable pub call : Bytes → Bytes → Run HttpsEthRpc Bytes
  unfolding contains_revert
  call method params_json rpc =
      let (http, outcome) =
        post transport rpc.endpoint.target (request_body method params_json (rpc.id + 1)) []
          (codes "application/json") rpc.client in
      (record rpc { client = http; id = rpc.id + 1 }, response_result outcome)

  -- The callback of the HTTPS overload.
  unfoldable pub https_rpc_call : Bytes → Bytes → Run HttpsEthRpc Bytes
  unfolding call
  https_rpc_call method params_json rpc =
      let (after, outcome) = call method params_json rpc in (after, caught method outcome)

abbrev pub beacon_params : Bytes → Bytes
beacon_params factory =
    codes "[{\"to\":\"" ++ (to_hex0x factory ++ codes "\",\"data\":\"0x49493a4d\"},\"latest\"]")

abbrev pub code_params : Bytes → Bytes
code_params address = codes "[\"" ++ (to_hex0x address ++ codes "\",\"latest\"]")

module _ (big : U256Library) (crypto : CryptoLibrary big) where
  module _ {S : Type 0} (rpc_call : Bytes → Bytes → Run S Bytes) where
    abbrev pub deployed : Bytes → Run S Bool
    deployed address = do
      code ← rpc_call (codes "eth_getCode") (code_params address)
      lift (has_contract_code code)

    abbrev ask_beacon : Bytes → Bytes → Run S (Bytes × Bool)
    ask_beacon owner factory_beacon = do
      beacon ← lift (derive_deposit_wallet_beacon big crypto owner factory_beacon)
      there ← deployed beacon
      return (beacon, there)

    -- The beacon candidate and whether it is deployed; both stay zero without a beacon.
    abbrev pub beacon_candidate : Bytes → Bytes → Run S (Bytes × Bool)
    beacon_candidate owner factory_beacon =
        if is_zero_address factory_beacon
        then return (zero_address, false)
        else ask_beacon owner factory_beacon

    abbrev pub selection : Bytes → Bytes → Bytes → Bool → Bytes × Bool → DepositWalletResolution
    selection owner factory_beacon uups uups_there (beacon, beacon_there) =
        let legacy = is_zero_address factory_beacon || uups_there in
        record {
          owner = owner;
          factory_beacon = factory_beacon;
          candidates = record { uups = uups; beacon = beacon };
          uups_deployed = uups_there;
          beacon_deployed = beacon_there;
          selected_kind = if legacy then uups_kind else beacon_kind;
          selected = if legacy then uups else beacon;
        }

    unfoldable pub resolve_deposit_wallet : Bytes → Run S DepositWalletResolution
    resolve_deposit_wallet owner = do
      factory ← lift (eth_address_from_hex (codes deposit_wallet_factory))
      beacon_word ← rpc_call (codes "eth_call") (beacon_params factory)
      factory_beacon ← lift (decode_abi_address beacon_word)
      uups ← lift (derive_deposit_wallet_uups big crypto owner)
      uups_there ← deployed uups
      candidate ← beacon_candidate owner factory_beacon
      return (selection owner factory_beacon uups uups_there candidate)

  -- The overload over a URL: the client that it makes, and its run.
  abbrev pub make_rpc : Bytes → Result HttpsEthRpc
  make_rpc rpc_url = bind (parse_https_url rpc_url) λ endpoint.
      bind (make_client endpoint.host endpoint.port default_options)
        λ client. ok (record { endpoint = endpoint; client = client; id = 0 })

  abbrev run_from :
      (transport : ℕ → Attempt) (read_envelope : Bytes → Option RpcEnvelope) (owner : Bytes)
      → Result HttpsEthRpc
      → RpcResult DepositWalletResolution
  run_from transport read_envelope owner (err e) = raised (exception e)
  run_from transport read_envelope owner (ok rpc) =
      (resolve_deposit_wallet (https_rpc_call transport read_envelope) owner rpc).1

  unfoldable pub resolve_deposit_wallet_url :
      (ℕ → Attempt)
      → (Bytes → Option RpcEnvelope)
      → Bytes
      → Bytes
      → RpcResult DepositWalletResolution
  unfolding resolve_deposit_wallet
  resolve_deposit_wallet_url transport read_envelope owner rpc_url =
      run_from transport read_envelope owner (make_rpc rpc_url)
