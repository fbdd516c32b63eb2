-- ===== src/Pm/Tests/Crypto.antt =====
-- A concrete cryptography in the place of the library parameter: a hash that keeps the start of a text,
-- words with the highest byte first, and one signer.
use polymarket_cpp.Prelude.{
  ℕ, zero, suc, ◌+◌, ◌*◌, ◌/◌, ◌%◌, ◌^◌, ◌≤◌, ◌<◌, ◌≡◌, refl, ap, ◌∙◌, Option, none, some, subst,
  [], ◌∷◌, ◌++◌, Bytes, arith, length, length-append, replicate, take,
}
use native.Mathlib.Nat.{pow-suc}
use polymarket_cpp.Pm.Crypto.{CryptoLibrary, be_value, be_value_from, address_word, domain_type}
use polymarket_cpp.Pm.Tests.Libraries.{numbers}

length-take : (n : ℕ) (xs : Bytes) → n ≤ length xs → length (take n xs) ≡ n
length-take zero xs h = refl
length-take (suc n) [] h = absurd (omega arith)
length-take (suc n) (x ∷ xs) h = ap suc (length-take n xs (omega arith))

abbrev pub start_of : Bytes → Bytes
start_of text = take 32 (text ++ replicate 32 0)

pub length-start_of : (text : Bytes) → length (start_of text) ≡ 32
length-start_of text =
    length-take 32 (text ++ replicate 32 0) (omega (arith, length-append text (replicate 32 0)))

unfoldable pub be_digits : ℕ → ℕ → Bytes
be_digits zero n = []
be_digits (suc k) n = be_digits k (n / 256) ++ (n % 256) ∷ []

pub length-be_digits : (k n : ℕ) → length (be_digits k n) ≡ k
unfolding be_digits
length-be_digits zero n = refl
length-be_digits (suc k) n =
    omega
      (arith, length-append (be_digits k (n / 256)) ((n % 256) ∷ []), length-be_digits k (n / 256))

be_value_from-append :
    (n : ℕ) (xs : Bytes) (b : ℕ) → be_value_from n (xs ++ b ∷ []) ≡ be_value_from n xs * 256 + b
unfolding be_value_from
be_value_from-append n [] b = refl
be_value_from-append n (x ∷ xs) b = be_value_from-append (n * 256 + x) xs b

pub be_value-be_digits : (k n : ℕ) → n < 256 ^ k → be_value (be_digits k n) ≡ n
unfolding be_digits be_value_from
be_value-be_digits zero n h = omega arith
be_value-be_digits (suc k) n h =
    let high : n / 256 < 256 ^ k = omega (arith, pow_step k) in
    be_value_from-append 0 (be_digits k (n / 256)) (n % 256)
    ∙ omega (arith, be_value-be_digits k (n / 256) high)
  where
    pow_step : (k : ℕ) → 256 ^ suc k ≡ 256 * 256 ^ k
    pow_step k = rw pow-suc (omega arith)

abbrev pub domain : Bytes → Bytes → ℕ → Bytes → Bytes
domain name version chain contract = start_of (
    start_of domain_type
    ++ (start_of name ++ (start_of version ++ (be_digits 32 chain ++ address_word contract))))

abbrev IsSigned : Option (Bytes × ℕ) → Type 0
IsSigned none = ⊥
IsSigned (some (sig, id)) =
    (length sig ≡ 64)
    × (id ≤ 3)
    × (◌≡◌ {A = Option Bytes} (some (replicate 65 4)) (some (replicate 65 4)))

pub toy_recover :
    {sig : Bytes} {id : ℕ}
    → ◌≡◌ {A = Option (Bytes × ℕ)} (some (replicate 64 7, 1)) (some (sig, id))
    → (length sig ≡ 64)
      × (id ≤ 3)
      × (◌≡◌ {A = Option Bytes} (some (replicate 65 4)) (some (replicate 65 4)))
toy_recover h = subst IsSigned h (refl, omega arith, refl)

abbrev pub toy : CryptoLibrary numbers
toy = record {
  keccak256 = start_of;
  append_word = λ out w. out ++ w;
  append_address = λ out a. out ++ address_word a;
  append_u8 = λ out n. out ++ be_digits 32 n;
  append_u64 = λ out n. out ++ be_digits 32 n;
  append_u256 = λ out u. out ++ be_digits 32 u;
  domain_separator = domain;
  domain_separator_nvc = λ name version chain. start_of (name ++ (version ++ be_digits 32 chain));
  typed_digest = λ d h. start_of (0x19 ∷ 0x01 ∷ (d ++ h));
  public_key65 = λ key. replicate 65 4;
  ecdsa_sign_digest = λ key digest. some (replicate 64 7, 1);
  ecdsa_recover = λ sig digest id. some (replicate 65 4);
  hmac = λ key message. start_of (key ++ message);
  bin2base64 = λ bytes. bytes;
  base642bin = λ text. some text;
  word = be_digits 32;
  length-word = length-be_digits 32;
  be_value-word = λ n h. be_value-be_digits 32 n h;
  length-keccak256 = length-start_of;
  append_word_lem = λ out w. refl;
  append_address_lem = λ out a. refl;
  append_u8_lem = λ out n. refl;
  append_u64_lem = λ out n. refl;
  append_u256_lem = λ out u. refl;
  domain_separator_lem = λ name version chain contract. refl;
  typed_digest_lem = λ d h. refl;
  recover_lem = λ key digest sig id h. toy_recover h;
}
