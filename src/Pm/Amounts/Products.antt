-- ===== src/Pm/Amounts/Products.antt =====
-- The pieces of the amount arithmetic, each against exact numbers.
use native.Mathlib.Nat.{mul-le-mul}
use polymarket_cpp.Prelude.{
  ℕ, ◌*◌, ◌≤◌, ◌<◌, ◌≡◌, sym, ap, ◌∙◌, subst, true, false, [], ◌∷◌, arith, AllDigits, All-append,
  IsDigit, value, to_string-AllDigits, value-to_string, leb, le→leb, Bool-cases, inl, inr, Result,
  ok, ok-injective, ◌>>=◌, max_u64, ℤ, pos, ◌+ℤ◌, negated,
}
use polymarket_cpp.Pm.Decimal.{Decimal, Rounding, scaled, token_units}
use polymarket_cpp.Pm.Decimal.Parse.{denoted, decimal_chars-print}
use polymarket_cpp.Pm.Decimal.Scaled.{scaled-rounded}
use polymarket_cpp.Pm.Decimal.Cutting.{rounded, fits_u64}
use polymarket_cpp.Pm.Double.{DoubleLibrary}
use polymarket_cpp.Pm.U256.{U256Library, u256_mod}
use polymarket_cpp.Pm.Amounts.{decimal, product}

-- What fits is at most the bound, and is returned unchanged.
pub fits_u64-ok : (n : ℕ) {m : ℕ} → fits_u64 n ≡ ok m → (m ≡ n) × (n ≤ max_u64)
fits_u64-ok n h = ground arith

pub fits_u64_lem : (n : ℕ) → n ≤ max_u64 → fits_u64 n ≡ ok n
fits_u64_lem n h = rw (le→leb n max_u64 h)

-- Two continuations that agree on a value that fits.
pub fits_u64-bind {ℓ} :
    {B : Type ℓ} (n : ℕ) (f g : ℕ → Result B)
    → (n ≤ max_u64 → f n ≡ g n)
    → (fits_u64 n >>= f) ≡ (fits_u64 n >>= g)
fits_u64-bind n f g h = elim (Bool-cases (leb n max_u64)) [
  | inl fits ↦ rw fits (h (ground arith))
  | inr over ↦ rw over
]

-- `token_units` multiplies exactly, or overflows.
pub token_units_lem : (n : ℕ) → token_units n ≡ fits_u64 (n * 10000)
unfolding token_units
token_units_lem n = ground arith

module _ (dbl : DoubleLibrary) where
  open dbl use {Double, is_finite, is_negative, is_zero, above_one, to_chars, to_chars_written}

  -- A double that is finite and not negative has a decimal, and no other has one.
  pub decimal_total :
      (v : Double)
      → is_finite v ≡ true
      → is_negative v ≡ false
      → (d : Decimal) × (decimal dbl v ≡ ok d) × AllDigits d.digits
  unfolding decimal
  decimal_total v fin neg = elim (Bool-cases (is_zero v)) [
    | inl z ↦ (record { digits = b'0' ∷ []; exponent = negated 0 }, rw (fin, neg, z), omega arith)
    | inr nz ↦
        let (w, h, e, _) = to_chars_written v fin neg nz in
        (
          denoted w,
          rw (fin, neg, nz, e) (decimal_chars-print w h),
          All-append IsDigit w.whole w.fraction h.whole_digits h.fraction_digits,
        )
  ]

  decimal_needs :
      (v : Double) {d : Decimal}
      → decimal dbl v ≡ ok d
      → (is_finite v ≡ true) × (is_negative v ≡ false)
  unfolding decimal
  decimal_needs v h = ground arith

  pub decimal-AllDigits : (v : Double) {d : Decimal} → decimal dbl v ≡ ok d → AllDigits d.digits
  decimal-AllDigits v h =
      let (fin, neg) = decimal_needs v h in
      let (d', e, digits) = decimal_total v fin neg in
      subst (λ x. AllDigits x.digits) (ok-injective (sym e ∙ h)) digits

  -- `scaled` of a double's decimal is the rounding of its exact value.
  pub scaled-decimal :
      (v : Double) (d : Decimal) (places : ℕ) (r : Rounding)
      → decimal dbl v ≡ ok d
      → scaled d places r ≡ fits_u64 (rounded r (value d.digits) (d.exponent +ℤ pos places))
  scaled-decimal v d places r h = scaled-rounded d places r (decimal-AllDigits v h)

module _ (big : U256Library) where
  open big use {
    U256, number, from_u64, checked_mul_u64, to_dec, number-from_u64, checked_mul_lem, to_dec_lem,
  }

  -- The product of a 64-bit number and a small one never overflows.
  pub product_lem :
      (a b : ℕ)
      → a ≤ max_u64
      → b ≤ max_u64
      → (p : U256) × (product big a b ≡ ok p) × (number p ≡ a * b)
  product_lem a b ha hb =
      let e = number-from_u64 a ha in
      let bound : a * b ≤ max_u64 * max_u64 = mul-le-mul ha hb in
      let (p, made, n) =
        checked_mul_lem (from_u64 a) b (subst (λ m. m * b < u256_mod) (sym e) (omega arith)) in
      (p, made, n ∙ ap (λ m. m * b) e)

  pub to_dec-AllDigits : (u : U256) → AllDigits (to_dec u)
  to_dec-AllDigits u = rw (to_dec_lem u) (to_string-AllDigits (number u))

  pub value-to_dec : (u : U256) → value (to_dec u) ≡ number u
  value-to_dec u = rw (to_dec_lem u) (value-to_string (number u))

  -- Scaling the decimal text of a product is rounding the product.
  pub scaled-to_dec :
      (u : U256) (exponent : ℤ) (places : ℕ) (r : Rounding)
      → scaled (record { digits = to_dec u; exponent = exponent }) places r
        ≡ fits_u64 (rounded r (number u) (exponent +ℤ pos places))
  scaled-to_dec u exponent places r =
      scaled-rounded (record { digits = to_dec u; exponent = exponent }) places r
        (to_dec-AllDigits u)
      ∙ ap (λ v. fits_u64 (rounded r v (exponent +ℤ pos places))) (value-to_dec u)
