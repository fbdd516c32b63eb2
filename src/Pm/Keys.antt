-- ===== src/Pm/Keys.antt =====
-- pm/keys.cpp: `PrivKey` and the recovery of a signer's address, over secp256k1.
use polymarket_cpp.Prelude.{
  ℕ, zero, suc, ◌+◌, ◌-◌, ◌%◌, refl, arith, ok-injective, le→ltb, length-append, ap, ◌≡◌, not,
  Option, none, some, [], ◌∷◌, ◌++◌, Bytes, length, take, drop, ltb, ◌==◌, Result, ok, err,
  invalid_argument, runtime_error, ◌>>=◌, ◌>>◌, throw_if, subst,
}
use polymarket_cpp.Pm.U256.{U256Library}
use polymarket_cpp.Pm.Crypto.{CryptoLibrary}
use polymarket_cpp.Pm.Hex.{from_hex}

-- A key is its 32 bytes.
unfoldable pub key_from_hex : Bytes → Result Bytes
key_from_hex hex = do
  b ← from_hex hex
  throw_if (not (length b == 32)) (invalid_argument "PrivKey: need 32 bytes")
  ok b

-- `sig[i]`, in a text that is long enough.
abbrev pub byte_of : ℕ → Bytes → ℕ
byte_of i [] = 0
byte_of zero (b ∷ bs) = b
byte_of (suc i) (b ∷ bs) = byte_of i bs

module _ (big : U256Library) (crypto : CryptoLibrary big) where
  open crypto use {keccak256, public_key65, ecdsa_sign_digest, ecdsa_recover}

  -- The last twenty bytes of the hash of a public key without its first byte.
  abbrev pub key_address : Bytes → Bytes
  key_address pub_key = drop 12 (keccak256 (take 64 (drop 1 pub_key)))

  unfoldable pub address : Bytes → Bytes
  address key = key_address (public_key65 key)

  abbrev pub signature_of : Option (Bytes × ℕ) → Result Bytes
  signature_of none = err (runtime_error "ecdsa_sign_digest failed")
  signature_of (some (sig, id)) = ok (sig ++ ((27 + id) % 256) ∷ [])

  unfoldable pub sign_digest : Bytes → Bytes → Result Bytes
  sign_digest key digest = signature_of (ecdsa_sign_digest key digest)

  abbrev pub address_of : Option Bytes → Result Bytes
  address_of none = err (runtime_error "recover: invalid signature")
  address_of (some pub_key) = ok (key_address pub_key)

  unfoldable pub recover_eth_address : Bytes → Bytes → Result Bytes
  recover_eth_address sig digest = do
    throw_if (ltb (byte_of 64 sig) 27) (invalid_argument "recover: v must be 27/28")
    address_of (ecdsa_recover (take 64 sig) digest (byte_of 64 sig - 27))

pub byte_of-append : (xs : Bytes) (b : ℕ) (n : ℕ) → length xs ≡ n → byte_of n (xs ++ b ∷ []) ≡ b
byte_of-append [] b zero h = refl
byte_of-append [] b (suc n) h = absurd (omega arith)
byte_of-append (x ∷ xs) b zero h = absurd (omega arith)
byte_of-append (x ∷ xs) b (suc n) h = byte_of-append xs b n (omega arith)

pub take_first : (xs ys : Bytes) (n : ℕ) → length xs ≡ n → take n (xs ++ ys) ≡ xs
take_first [] ys zero h = refl
take_first [] ys (suc n) h = absurd (omega arith)
take_first (x ∷ xs) ys zero h = absurd (omega arith)
take_first (x ∷ xs) ys (suc n) h = ap (◌∷◌ x) (take_first xs ys n (omega arith))

module _ (big : U256Library) (crypto : CryptoLibrary big) where
  recover_signed :
      (key digest s : Bytes) (id : ℕ)
      → crypto.ecdsa_sign_digest key digest ≡ some (s, id)
      → (length (s ++ ((27 + id) % 256) ∷ []) ≡ 65)
        × (recover_eth_address big crypto (s ++ ((27 + id) % 256) ∷ []) digest
            ≡ ok (address big crypto key))
  unfolding recover_eth_address address
  recover_signed key digest s id h =
      let law = crypto.recover_lem key digest s id h in
      let small : (27 + id) % 256 ≡ 27 + id = omega (arith, law.1) in
      let back : 27 + id - 27 ≡ id = omega arith in
      (
        omega (arith, length-append s (((27 + id) % 256) ∷ []), law.0),
        rw
            (
              byte_of-append s ((27 + id) % 256) 64 law.0,
              take_first s (((27 + id) % 256) ∷ []) 64 law.0,
              small,
              le→ltb (27 + id) 27 (omega arith),
              back,
              law.2,
            )
            refl,
      )

  -- A signature has 65 bytes, and the address that is recovered from it and the digest is that of the key.
  pub sign_digest-recover :
      (key digest : Bytes) {sig : Bytes}
      → sign_digest big crypto key digest ≡ ok sig
      → (length sig ≡ 65)
        × (recover_eth_address big crypto sig digest ≡ ok (address big crypto key))
  unfolding sign_digest
  sign_digest-recover key digest {sig} h = by_case (crypto.ecdsa_sign_digest key digest) refl h
    where
      by_case :
          (r : Option (Bytes × ℕ))
          → crypto.ecdsa_sign_digest key digest ≡ r
          → signature_of big crypto r ≡ ok sig
          → (length sig ≡ 65)
            × (recover_eth_address big crypto sig digest ≡ ok (address big crypto key))
      by_case none e f = cc
      by_case (some (s, id)) e f =
          subst
            (λ t.
              (length t ≡ 65)
              × (recover_eth_address big crypto t digest ≡ ok (address big crypto key)))
            (ok-injective f) (recover_signed key digest s id e)
