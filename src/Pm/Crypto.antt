-- ===== src/Pm/Crypto.antt =====
-- The cryptography that is not part of the repository: izan-crypto's EIP-712 helpers, secp256k1 of
-- trezor-crypto and libsodium. Their operations are a parameter, with their documented behaviour: the
-- 32-byte words of EIP-712, and that a signature gives back the key that made it.
use polymarket_cpp.Prelude.{
  ℕ, ◌+◌, ◌*◌, ◌≤◌, ◌<◌, ◌≡◌, Option, some, [], ◌∷◌, ◌++◌, Bytes, codes, length, replicate,
}
use polymarket_cpp.Pm.U256.{U256Library, u256_mod}

-- The number that bytes stand for, the highest byte first.
unfoldable pub be_value_from : ℕ → Bytes → ℕ
be_value_from n [] = n
be_value_from n (b ∷ bs) = be_value_from (n * 256 + b) bs

abbrev pub be_value : Bytes → ℕ
be_value = be_value_from 0

-- An address fills the low twenty bytes of its word.
abbrev pub address_word : Bytes → Bytes
address_word a = replicate 12 0 ++ a

abbrev pub domain_type : Bytes
domain_type =
    codes "EIP712Domain(string name,string version,uint256 chainId,address verifyingContract)"

pub record CryptoLibrary (big : U256Library) : Type 0 where
  pub keccak256 : Bytes → Bytes
  pub append_word : Bytes → Bytes → Bytes
  pub append_address : Bytes → Bytes → Bytes
  pub append_u8 : Bytes → ℕ → Bytes
  pub append_u64 : Bytes → ℕ → Bytes
  pub append_u256 : Bytes → big.U256 → Bytes
  pub domain_separator : Bytes → Bytes → ℕ → Bytes → Bytes
  pub domain_separator_nvc : Bytes → Bytes → ℕ → Bytes
  pub typed_digest : Bytes → Bytes → Bytes
  -- `ecdsa_get_public_key65`, `ecdsa_sign_digest` (r || s and the recovery id) and
  -- `ecdsa_recover_pub_from_sig`; `none` is an error code.
  pub public_key65 : Bytes → Bytes
  pub ecdsa_sign_digest : Bytes → Bytes → Option (Bytes × ℕ)
  pub ecdsa_recover : Bytes → Bytes → ℕ → Option Bytes
  -- HMAC-SHA-256 by key and message; base64 of the URL-safe variant.
  pub hmac : Bytes → Bytes → Bytes
  pub bin2base64 : Bytes → Bytes
  pub base642bin : Bytes → Option Bytes
  -- The word of a number.
  pub word : ℕ → Bytes
  pub length-word : (n : ℕ) → length (word n) ≡ 32
  pub be_value-word : (n : ℕ) → n < u256_mod → be_value (word n) ≡ n
  pub length-keccak256 : (text : Bytes) → length (keccak256 text) ≡ 32
  pub append_word_lem : (out w : Bytes) → append_word out w ≡ out ++ w
  pub append_address_lem : (out a : Bytes) → append_address out a ≡ out ++ address_word a
  pub append_u8_lem : (out : Bytes) (n : ℕ) → append_u8 out n ≡ out ++ word n
  pub append_u64_lem : (out : Bytes) (n : ℕ) → append_u64 out n ≡ out ++ word n
  pub append_u256_lem :
      (out : Bytes) (u : big.U256) → append_u256 out u ≡ out ++ word (big.number u)
  pub domain_separator_lem :
      (name version : Bytes) (chain : ℕ) (contract : Bytes)
      → domain_separator name version chain contract
        ≡ keccak256 (
            keccak256 domain_type
            ++ (keccak256 name ++ (keccak256 version ++ (word chain ++ address_word contract))))
  pub typed_digest_lem :
      (domain hash : Bytes) → typed_digest domain hash ≡ keccak256 (0x19 ∷ 0x01 ∷ (domain ++ hash))
  pub recover_lem :
      (key digest sig : Bytes) (id : ℕ)
      → ecdsa_sign_digest key digest ≡ some (sig, id)
      → (length sig ≡ 64) × (id ≤ 3) × (ecdsa_recover sig digest id ≡ some (public_key65 key))
