-- ===== src/Pm/Signing.antt =====
-- pm/signing.cpp: the EIP-712 digest of an order, the domain that it is signed for, its ERC-1271
-- wrapping, and the attestation of a wallet.
pub mod Words
pub mod Encodings
pub mod Binding
pub mod Wrapped
use polymarket_cpp.Prelude.{
  ℕ, ◌/◌, ◌%◌, Bool, [], ◌∷◌, ◌++◌, Bytes, codes, length, replicate, to_string, if◌then◌else◌,
  Result, ok, err, invalid_argument, ◌>>=◌,
}
use polymarket_cpp.Pm.U256.{U256Library}
use polymarket_cpp.Pm.Crypto.{CryptoLibrary}
use polymarket_cpp.Pm.Keys.{sign_digest}
use polymarket_cpp.Pm.Amounts.{Side, buy, sell, other_side}
use polymarket_cpp.Pm.Hex.{eth_address_from_hex}
use polymarket_cpp.Pm.Protocol.{
  OrderProtocol, ctf_v2, position_v3, other_protocol, exchange_v2, neg_risk_exchange_v2,
  exchange_v3,
}

abbrev pub chain_id : ℕ
chain_id = 137

pub record OrderV2 (big : U256Library) : Type 0 where
  pub salt : ℕ
  pub maker : Bytes
  pub signer : Bytes
  pub token_id : big.U256
  pub maker_amount : ℕ
  pub taker_amount : ℕ
  pub side : Side
  pub signature_type : ℕ
  pub timestamp_ms : ℕ
  pub metadata : Bytes
  pub builder : Bytes

-- `uint8_t(o.side)`
abbrev pub side_number : Side → ℕ
side_number buy = 0
side_number sell = 1
side_number (other_side n) = n % 256

abbrev pub order_type_string : Bytes
order_type_string =
    codes "Order(uint256 salt,address maker,address signer,uint256 tokenId,"
    ++ (codes "uint256 makerAmount,uint256 takerAmount,uint8 side,"
        ++ (codes "uint8 signatureType,uint256 timestamp,bytes32 metadata,"
            ++ codes "bytes32 builder)"))

abbrev typed_data_sign_string : Bytes
typed_data_sign_string =
    codes "TypedDataSign(Order contents,string name,string version,"
    ++ (codes "uint256 chainId,address verifyingContract,bytes32 salt)" ++ order_type_string)

module _ (big : U256Library) (crypto : CryptoLibrary big) where
  open crypto use {
    keccak256, append_word, append_address, append_u8, append_u64, append_u256, domain_separator,
    domain_separator_nvc, typed_digest,
  }

  abbrev exchange : Bytes → Bytes → Bytes
  exchange version contract =
      domain_separator (codes "Polymarket CTF Exchange") version chain_id contract

  -- What is returned once the three constants are there.
  abbrev domain_of : OrderProtocol → Bool → Bytes → Bytes → Bytes → Result Bytes
  domain_of position_v3 neg_risk domain neg_risk_domain position_domain = ok position_domain
  domain_of (other_protocol n) neg_risk domain neg_risk_domain position_domain =
      err (invalid_argument "pm: unsupported order protocol")
  domain_of ctf_v2 neg_risk domain neg_risk_domain position_domain =
      ok (if neg_risk then neg_risk_domain else domain)

  unfoldable pub exchange_domain : OrderProtocol → Bool → Result Bytes
  exchange_domain protocol neg_risk = do
    a ← eth_address_from_hex (codes exchange_v2)
    b ← eth_address_from_hex (codes neg_risk_exchange_v2)
    c ← eth_address_from_hex (codes exchange_v3)
    domain_of protocol neg_risk (exchange (codes "2") a) (exchange (codes "2") b)
        (exchange (codes "3") c)

  -- `buf` of `order_struct_hash_v2`.
  unfoldable pub order_encoding : OrderV2 big → Bytes
  order_encoding o =
      let b0 = append_word [] (keccak256 order_type_string) in
      let b1 = append_u64 b0 o.salt in
      let b2 = append_address b1 o.maker in
      let b3 = append_address b2 o.signer in
      let b4 = append_u256 b3 o.token_id in
      let b5 = append_u64 b4 o.maker_amount in
      let b6 = append_u64 b5 o.taker_amount in
      let b7 = append_u8 b6 (side_number o.side) in
      let b8 = append_u8 b7 o.signature_type in
      let b9 = append_u64 b8 o.timestamp_ms in
      let b10 = append_word b9 o.metadata in append_word b10 o.builder

  unfoldable pub order_struct_hash_v2 : OrderV2 big → Bytes
  order_struct_hash_v2 o = keccak256 (order_encoding o)

  unfoldable pub order_digest : OrderV2 big → OrderProtocol → Bool → Result Bytes
  order_digest o protocol neg_risk = do
    domain ← exchange_domain protocol neg_risk
    ok (typed_digest domain (order_struct_hash_v2 o))

  abbrev pub order_digest_v2 : OrderV2 big → Bool → Result Bytes
  order_digest_v2 o neg_risk = order_digest o ctf_v2 neg_risk

  unfoldable pub sign_order : Bytes → OrderV2 big → OrderProtocol → Bool → Result Bytes
  unfolding order_digest
  sign_order key o protocol neg_risk = do
    digest ← order_digest o protocol neg_risk
    sign_digest big crypto key digest

  unfoldable pub sign_order_v2 : Bytes → OrderV2 big → Bool → Result Bytes
  unfolding order_digest
  sign_order_v2 key o neg_risk = do
    digest ← order_digest_v2 o neg_risk
    sign_digest big crypto key digest

  -- `buf` of `sign_order_1271`.
  unfoldable pub typed_data_sign_encoding : Bytes → Bytes → Bytes
  typed_data_sign_encoding contents_hash wallet =
      let b0 = append_word [] (keccak256 typed_data_sign_string) in
      let b1 = append_word b0 contents_hash in
      let b2 = append_word b1 (keccak256 (codes "DepositWallet")) in
      let b3 = append_word b2 (keccak256 (codes "1")) in
      let b4 = append_u64 b3 chain_id in
      let b5 = append_address b4 wallet in append_word b5 (replicate 32 0)

  -- inner signature || app domain || contents hash || type string || its length in two bytes.
  abbrev pub wrap_signature : Bytes → Bytes → Bytes → Bytes
  wrap_signature inner app_domain contents_hash =
      inner
      ++ (app_domain
          ++ (contents_hash
              ++ (order_type_string
                  ++ (length order_type_string / 256 % 256)
                    ∷ (length order_type_string % 256)
                    ∷ [])))

  unfoldable pub sign_order_1271 : Bytes → OrderV2 big → Bytes → OrderProtocol → Bool → Result Bytes
  unfolding typed_data_sign_encoding
  sign_order_1271 key o wallet protocol neg_risk = do
    let contents_hash = order_struct_hash_v2 o
    app_domain ← exchange_domain protocol neg_risk
    let tds_hash = keccak256 (typed_data_sign_encoding contents_hash wallet)
    inner ← sign_digest big crypto key (typed_digest app_domain tds_hash)
    ok (wrap_signature inner app_domain contents_hash)

  abbrev pub sign_order_v2_1271 : Bytes → OrderV2 big → Bytes → Bool → Result Bytes
  sign_order_v2_1271 key o wallet neg_risk = sign_order_1271 key o wallet ctf_v2 neg_risk

  unfoldable pub clob_auth_encoding : Bytes → ℕ → ℕ → Bytes
  clob_auth_encoding address timestamp_s nonce =
      let b0 = append_word [] (
        keccak256
          (codes "ClobAuth(address address,string timestamp,uint256 nonce,string message)")) in
      let b1 = append_address b0 address in
      let b2 = append_word b1 (keccak256 (to_string timestamp_s)) in
      let b3 = append_u64 b2 nonce in
      append_word b3 (keccak256 (codes "This message attests that I control the given wallet"))

  unfoldable pub sign_clob_auth : Bytes → Bytes → ℕ → ℕ → Result Bytes
  unfolding clob_auth_encoding
  sign_clob_auth key address timestamp_s nonce = sign_digest big crypto key (
      typed_digest (domain_separator_nvc (codes "ClobAuthDomain") (codes "1") chain_id)
        (keccak256 (clob_auth_encoding address timestamp_s nonce)))
