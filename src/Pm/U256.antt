-- ===== src/Pm/U256.antt =====
-- `izan::units::U256` of izan-crypto, which is not part of this repository: its operations are a
-- parameter, with their documented behaviour on the number that a value stands for.
use polymarket_cpp.Prelude.{
  ℕ, ◌*◌, ◌^◌, ◌≤◌, ◌<◌, ◌≡◌, ◌≢◌, Bool, Bytes, [], ltb, Result, ok, max_u64, to_string, AllDigits,
  value,
}

abbrev pub u256_mod : ℕ
u256_mod = 2 ^ 256

pub record U256Library : Type 1 where
  pub U256 : Type 0
  pub number : U256 → ℕ
  pub from_u64 : ℕ → U256
  pub checked_mul_u64 : U256 → ℕ → Result U256
  pub to_dec : U256 → Bytes
  pub from_dec : Bytes → Result U256
  pub less : U256 → U256 → Bool
  pub number-from_u64 : (n : ℕ) → n ≤ max_u64 → number (from_u64 n) ≡ n
  pub checked_mul_lem :
      (u : U256) (n : ℕ)
      → number u * n < u256_mod
      → (v : U256) × (checked_mul_u64 u n ≡ ok v) × (number v ≡ number u * n)
  pub to_dec_lem : (u : U256) → to_dec u ≡ to_string (number u)
  pub less_lem : (u v : U256) → less u v ≡ ltb (number u) (number v)
  pub from_dec_lem :
      (text : Bytes)
      → AllDigits text
      → text ≢ []
      → value text < u256_mod
      → (u : U256) × (from_dec text ≡ ok u) × (number u ≡ value text)
