-- ===== src/Pm/DepositWallet.antt =====
-- pm/deposit_wallet.cpp: the addresses of deposit wallets by CREATE2, and the digest of a batch of calls.
pub mod InitCode
pub mod Batch
use polymarket_cpp.Prelude.{
  ℕ, ◌+◌, ◌*◌, ◌/◌, ◌%◌, ◌^◌, Bool, true, false, List, [], ◌∷◌, ◌++◌, Bytes, String, codes, length,
  drop, if◌then◌else◌, Result, ok, ◌>>=◌,
}
use polymarket_cpp.Pm.U256.{U256Library}
use polymarket_cpp.Pm.Crypto.{CryptoLibrary}
use polymarket_cpp.Pm.Hex.{from_hex, eth_address_from_hex}
use polymarket_cpp.Pm.Keys.{sign_digest}

abbrev pub deposit_wallet_factory : String
deposit_wallet_factory = "0x00000000000Fb5C9ADea0298D729A0CB3823Cc07"

abbrev deposit_wallet_uups_implementation : String
deposit_wallet_uups_implementation = "0x58CA52ebe0DadfdF531Cde7062e76746de4Db1eB"

abbrev pub clone_const1 : String
clone_const1 = "cc3735a920a3ca505d382bbc545af43d6000803e6038573d6000fd5b3d6000f3"

abbrev pub clone_const2 : String
clone_const2 = "5155f3363d3d373d3d363d7f360894a13ba1a3210667c828492db98dca3e2076"

abbrev pub beacon_const1 : String
beacon_const1 = "b3582b35133d50545afa5036515af43d6000803e604d573d6000fd5b3d6000f3"

abbrev pub beacon_const2 : String
beacon_const2 = "1b60e01b36527fa3f0ad74e5423aebfd80d3ef4346578335a9a72aeaee59ff6c"

abbrev pub beacon_const3 : String
beacon_const3 = "60195155f3363d3d373d3d363d602036600436635c60da"

pub record DepositWalletCandidates : Type 0 where
  pub uups : Bytes
  pub beacon : Bytes

pub record DepositWalletCall (big : U256Library) : Type 0 where
  pub target : Bytes
  pub value : big.U256
  pub call_data : Bytes

-- `low`, a `std::uint64_t`.
abbrev pub prefix_low : Bool → ℕ → ℕ
prefix_low beacon argument_size =
    ((if beacon then 0x523D8160233D3973 else 0x3D3D8160233D3973) + argument_size * 2 ^ 56 % 2 ^ 64)
    % 2 ^ 64

unfoldable pub clone_prefix : Bool → ℕ → Bytes
clone_prefix beacon argument_size =
    let low = prefix_low beacon argument_size in
    0x61
    ∷ 0x00
    ∷ (low / 2 ^ 56 % 256)
    ∷ (low / 2 ^ 48 % 256)
    ∷ (low / 2 ^ 40 % 256)
    ∷ (low / 2 ^ 32 % 256)
    ∷ (low / 2 ^ 24 % 256)
    ∷ (low / 2 ^ 16 % 256)
    ∷ (low / 2 ^ 8 % 256)
    ∷ (low % 256)
    ∷ []

-- `code` of `uups_init_code_hash` and of `beacon_init_code_hash`.
unfoldable pub uups_init_code : Bytes → Bytes → Result Bytes
unfolding clone_prefix
uups_init_code implementation arguments = do
  two ← from_hex (codes clone_const2)
  one ← from_hex (codes clone_const1)
  ok (
      clone_prefix false (length arguments)
      ++ (implementation ++ 0x60 ∷ 0x09 ∷ (two ++ (one ++ arguments))))

unfoldable pub beacon_init_code : Bytes → Bytes → Result Bytes
unfolding clone_prefix
beacon_init_code beacon arguments = do
  three ← from_hex (codes beacon_const3)
  two ← from_hex (codes beacon_const2)
  one ← from_hex (codes beacon_const1)
  ok (clone_prefix true (length arguments) ++ (beacon ++ (three ++ (two ++ (one ++ arguments)))))

module _ (big : U256Library) (crypto : CryptoLibrary big) where
  open crypto use {
    keccak256, append_word, append_address, append_u64, append_u256, domain_separator, typed_digest,
  }

  unfoldable pub deposit_wallet_arguments : Bytes → Bytes → Bytes
  deposit_wallet_arguments factory owner = append_address (append_address [] factory) owner

  abbrev pub uups_init_code_hash : Bytes → Bytes → Result Bytes
  uups_init_code_hash implementation arguments = do
    code ← uups_init_code implementation arguments
    ok (keccak256 code)

  abbrev pub beacon_init_code_hash : Bytes → Bytes → Result Bytes
  beacon_init_code_hash beacon arguments = do
    code ← beacon_init_code beacon arguments
    ok (keccak256 code)

  unfoldable pub create2_address : Bytes → Bytes → Bytes → Bytes
  create2_address factory salt init_code_hash =
      drop 12 (keccak256 (0xff ∷ (factory ++ (salt ++ init_code_hash))))

  unfoldable pub derive_deposit_wallet_uups : Bytes → Result Bytes
  unfolding create2_address deposit_wallet_arguments uups_init_code
  derive_deposit_wallet_uups owner = do
    factory ← eth_address_from_hex (codes deposit_wallet_factory)
    let arguments = deposit_wallet_arguments factory owner
    implementation ← eth_address_from_hex (codes deposit_wallet_uups_implementation)
    hash ← uups_init_code_hash implementation arguments
    ok (create2_address factory (keccak256 arguments) hash)

  unfoldable pub derive_deposit_wallet_beacon : Bytes → Bytes → Result Bytes
  unfolding create2_address deposit_wallet_arguments beacon_init_code
  derive_deposit_wallet_beacon owner beacon = do
    factory ← eth_address_from_hex (codes deposit_wallet_factory)
    let arguments = deposit_wallet_arguments factory owner
    hash ← beacon_init_code_hash beacon arguments
    ok (create2_address factory (keccak256 arguments) hash)

  unfoldable pub derive_deposit_wallet_candidates : Bytes → Bytes → Result DepositWalletCandidates
  unfolding derive_deposit_wallet_uups derive_deposit_wallet_beacon
  derive_deposit_wallet_candidates owner beacon = do
    u ← derive_deposit_wallet_uups owner
    b ← derive_deposit_wallet_beacon owner beacon
    ok (record { uups = u; beacon = b })

  abbrev pub call_type : Bytes
  call_type = codes "Call(address target,uint256 value,bytes data)"

  abbrev pub batch_type : Bytes
  batch_type =
      codes "Batch(address wallet,uint256 nonce,uint256 deadline,Call[] calls)" ++ call_type

  -- `encoded_call`, and the loop that collects the hashes of the calls.
  unfoldable pub call_encoding : DepositWalletCall big → Bytes
  call_encoding call =
      let b0 = append_word [] (keccak256 call_type) in
      let b1 = append_address b0 call.target in
      let b2 = append_u256 b1 call.value in append_word b2 (keccak256 call.call_data)

  unfoldable pub encoded_calls : List (DepositWalletCall big) → Bytes
  encoded_calls [] = []
  encoded_calls (call ∷ calls) = keccak256 (call_encoding call) ++ encoded_calls calls

  unfoldable pub batch_encoding : Bytes → ℕ → ℕ → List (DepositWalletCall big) → Bytes
  unfolding call_encoding encoded_calls
  batch_encoding wallet nonce deadline calls =
      let b0 = append_word [] (keccak256 batch_type) in
      let b1 = append_address b0 wallet in
      let b2 = append_u64 b1 nonce in
      let b3 = append_u64 b2 deadline in append_word b3 (keccak256 (encoded_calls calls))

  unfoldable pub deposit_wallet_batch_digest :
      ℕ → Bytes → ℕ → ℕ → List (DepositWalletCall big) → Bytes
  deposit_wallet_batch_digest chain wallet nonce deadline calls =
      typed_digest (domain_separator (codes "DepositWallet") (codes "1") chain wallet)
        (keccak256 (batch_encoding wallet nonce deadline calls))

  unfoldable pub sign_deposit_wallet_batch :
      Bytes → ℕ → Bytes → ℕ → ℕ → List (DepositWalletCall big) → Result Bytes
  unfolding deposit_wallet_batch_digest
  sign_deposit_wallet_batch key chain wallet nonce deadline calls =
      sign_digest big crypto key (deposit_wallet_batch_digest chain wallet nonce deadline calls)
