-- ===== src/Pm/Relayer/Requests.antt =====
-- The texts and headers that a relayer request is made of, and `std::stoull`.
use polymarket_cpp.Prelude.{
  ℕ, ◌-◌, ◌%◌, ◌^◌, Bool, true, false, ◌&&◌, ◌||◌, not, List, [], ◌∷◌, ◌++◌, Bytes, codes, is_empty,
  ltb, leb, ◌==◌, if◌then◌else◌, to_string, digits_prefix, value, max_u64, Result, ok, err,
  invalid_argument, out_of_range, ◌>>=◌, ◌>>◌, throw_if,
}
use polymarket_cpp.Net.HttpClient.Requests.{Headers}
use polymarket_cpp.Pm.U256.{U256Library}
use polymarket_cpp.Pm.Crypto.{CryptoLibrary}
use polymarket_cpp.Pm.Hex.{to_hex0x, eth_address_from_hex}
use polymarket_cpp.Pm.Auth.{b64url_encode, b64url_decode, hmac_sha256}
use polymarket_cpp.Pm.DepositWallet.{DepositWalletCall, deposit_wallet_factory}

pub record BuilderApiCreds : Type 0 where
  pub key : Bytes
  pub secret : Bytes
  pub passphrase : Bytes

pub record RelayerApiCreds : Type 0 where
  pub key : Bytes
  pub address : Bytes

abbrev pub builder_complete : BuilderApiCreds → Bool
builder_complete c = not (is_empty c.key) && not (is_empty c.secret) && not (is_empty c.passphrase)

abbrev pub relayer_complete : RelayerApiCreds → Bool
relayer_complete c = not (is_empty c.key) && not (is_empty c.address)

-- White space of the "C" locale.
abbrev pub is_space : ℕ → Bool
is_space c = c == 32 || leb 9 c && leb c 13

unfoldable pub without_space : Bytes → Bytes
without_space [] = []
without_space (c ∷ cs) = let rest = without_space cs in if is_space c then rest else c ∷ cs

-- The number that digits denote, which a minus sign turns around modulo 2 ^ 64.
abbrev stoull_digits : Bool → Bytes → Result ℕ
stoull_digits negative ds =
    if is_empty ds
    then err (invalid_argument "stoull")
    else if ltb max_u64 (value ds)
    then err (out_of_range "stoull")
    else ok (if negative then (2 ^ 64 - value ds) % 2 ^ 64 else value ds)

abbrev stoull_sign : Bytes → Result ℕ
stoull_sign [] = err (invalid_argument "stoull")
stoull_sign (c ∷ cs) =
    if c == b'-'
    then stoull_digits true (digits_prefix cs)
    else if c == b'+'
    then stoull_digits false (digits_prefix cs)
    else stoull_digits false (digits_prefix (c ∷ cs))

unfoldable pub stoull : Bytes → Result ℕ
unfolding without_space
stoull text = stoull_sign (without_space text)

unfoldable pub build_deposit_wallet_create_request : Bytes → Result Bytes
build_deposit_wallet_create_request owner = do
  factory ← eth_address_from_hex (codes deposit_wallet_factory)
  ok (
      codes "{\"type\":\"WALLET-CREATE\",\"from\":\""
      ++ (to_hex0x owner ++ (codes "\",\"to\":\"" ++ (to_hex0x factory ++ codes "\"}"))))

module _ (big : U256Library) where
  abbrev pub call_json : DepositWalletCall big → Bytes
  call_json call =
      codes "{\"target\":\""
      ++ (to_hex0x call.target
          ++ (codes "\",\"value\":\""
              ++ (big.to_dec call.value
                  ++ (codes "\",\"data\":\"" ++ (to_hex0x call.call_data ++ codes "\"}")))))

  -- The loop over the calls, with a comma before each but the first.
  unfoldable pub more_calls_json : List (DepositWalletCall big) → Bytes
  more_calls_json [] = []
  more_calls_json (call ∷ calls) = b',' ∷ (call_json call ++ more_calls_json calls)

  abbrev pub calls_json : List (DepositWalletCall big) → Bytes
  calls_json [] = []
  calls_json (call ∷ calls) = call_json call ++ more_calls_json calls

  unfoldable pub build_deposit_wallet_batch_request :
      Bytes → Bytes → ℕ → ℕ → List (DepositWalletCall big) → Bytes → Result Bytes
  unfolding more_calls_json
  build_deposit_wallet_batch_request owner wallet nonce deadline calls signature = do
    factory ← eth_address_from_hex (codes deposit_wallet_factory)
    let params =
        codes "\",\"depositWalletParams\":{\"depositWallet\":\""
        ++ (to_hex0x wallet
            ++ (codes "\",\"deadline\":\""
                ++ (to_string deadline
                    ++ (codes "\",\"calls\":[" ++ (calls_json calls ++ codes "]}}")))))
    ok (
        codes "{\"type\":\"WALLET\",\"from\":\""
        ++ (to_hex0x owner
            ++ (codes "\",\"to\":\""
                ++ (to_hex0x factory
                    ++ (codes "\",\"nonce\":\""
                        ++ (to_string nonce
                            ++ (codes "\",\"signature\":\"" ++ (to_hex0x signature ++ params))))))))

module _ (big : U256Library) (crypto : CryptoLibrary big) where
  unfoldable pub build_builder_headers :
      BuilderApiCreds → ℕ → Bytes → Bytes → Bytes → Result Headers
  build_builder_headers creds timestamp_s method request_path body = do
    throw_if (not (builder_complete creds)) (invalid_argument "incomplete builder credentials")
    let message = to_string timestamp_s ++ (method ++ (request_path ++ body))
    secret ← b64url_decode big crypto creds.secret
    let signature = b64url_encode big crypto (hmac_sha256 big crypto secret message)
    ok (
        (codes "POLY_BUILDER_API_KEY", creds.key)
        ∷ (codes "POLY_BUILDER_TIMESTAMP", to_string timestamp_s)
        ∷ (codes "POLY_BUILDER_PASSPHRASE", creds.passphrase)
        ∷ (codes "POLY_BUILDER_SIGNATURE", signature)
        ∷ [])
