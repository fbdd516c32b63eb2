-- ===== src/Pm/Amounts/Protection.antt =====
-- The protection price: `protection_units` reads the tick exactly and floors the price to a whole tick.
use native.Mathlib.Nat.{div-add-mod, mul-div_cancel, eq_of_mul-eq-mul_right}
use polymarket_cpp.Prelude.{
  ℕ, zero, suc, ◌+◌, ◌-◌, ◌*◌, ◌/◌, ◌%◌, ◌^◌, ◌≤◌, ◌<◌, ◌≡◌, refl, sym, ap, ◌∙◌, subst, false,
  arith, leb, Bool-cases, inl, inr, ok, ◌>>=◌, max_u64, ℤ, pos, negsuc, ◌+ℤ◌, pos_+ℤ, negsuc_+ℤ_le,
  negsuc_+ℤ_lt, pos_part, neg_part, value, >>=-eq-ok, pow_add, pow_pos,
}
use polymarket_cpp.Pm.Decimal.{Decimal, down, scaled}
use polymarket_cpp.Pm.Decimal.Cutting.{rounded, fits_u64}
use polymarket_cpp.Pm.Decimal.Parse.{denoted, decimal_chars-print}
use polymarket_cpp.Pm.Double.{DoubleLibrary}
use polymarket_cpp.Pm.Amounts.{decimal, out_of_range, protection_units}
use polymarket_cpp.Pm.Amounts.Ticks.{
  Tick, tenth, tick_config, tick_text, tick_units, tick_units_pos, tick_digits, codes-tick_text,
  tick_digits-AllDigits, length-tick_digits, value-tick_digits,
}
use polymarket_cpp.Pm.Amounts.Products.{fits_u64_lem, fits_u64-bind, scaled-decimal}
use polymarket_cpp.Pm.Amounts.Protected.{scale_of, IsProtection}

-- A number that is an integer at the wanted places is scaled to that integer.
rounded_exact :
    (v n k : ℕ) (e : ℤ)
    → v * 10 ^ (pos_part e + k) ≡ n * 10 ^ neg_part e
    → rounded down v (e +ℤ pos k) ≡ n
rounded_exact v n k (pos a) h = rw (pos_+ℤ a k) (omega arith)
rounded_exact v n k (negsuc a) h = elim (Bool-cases (leb (suc a) k)) [
  | inl e ↦
      let le : suc a ≤ k = ground arith in
      let split : k - suc a + suc a ≡ k = omega arith in
      let powers = sym (pow_add (k - suc a) (suc a)) ∙ ap (λ m. 10 ^ m) split in
      rw (negsuc_+ℤ_le a k le) (
        eq_of_mul-eq-mul_right (10 ^ suc a) (pow_pos (suc a)) (v * 10 ^ (k - suc a)) n (
          same_product v (10 ^ (k - suc a)) (10 ^ suc a) (10 ^ k) (n * 10 ^ suc a) powers
            (whole h)))
  | inr e ↦
      let lt : k < suc a = ground arith in
      let m = suc a - k - 1 in
      let split : suc m + k ≡ suc a = omega arith in
      let powers = sym (pow_add (suc m) k) ∙ ap (λ m. 10 ^ m) split in
      let exact : v ≡ n * 10 ^ suc m =
        eq_of_mul-eq-mul_right (10 ^ k) (pow_pos k) v (n * 10 ^ suc m)
          (whole h ∙ sym (same_product n (10 ^ suc m) (10 ^ k) (10 ^ suc a) _ powers refl)) in
      rw (negsuc_+ℤ_lt a k lt) (ap (λ x. x / 10 ^ suc m) exact ∙ mul-div_cancel n (pow_pos (suc m)))
]
  where
    same_product : (x p q r s : ℕ) → p * q ≡ r → x * r ≡ s → x * p * q ≡ s
    same_product x p q r s e f =
        let grouped : x * p * q ≡ x * (p * q) = omega arith in grouped ∙ ap (λ y. x * y) e ∙ f

    whole : v * 10 ^ (0 + k) ≡ n * 10 ^ suc a → v * 10 ^ k ≡ n * 10 ^ suc a
    whole h' =
        let zero_add : 0 + k ≡ k = omega arith in
        subst (λ y. v * 10 ^ y ≡ n * 10 ^ suc a) zero_add h'

few_places : (t : Tick) → (tick_config t).price ≤ 15
few_places tenth = omega arith
few_places _ = omega arith

small_units : (t : Tick) → tick_units t ≤ max_u64
small_units tenth = omega arith
small_units _ = omega arith

tick_small : (t : Tick) → tick_units t ≤ scale_of t
tick_small tenth = omega arith
tick_small _ = omega arith

pub scale_small : (t : Tick) → scale_of t ≤ 10000
scale_small tenth = omega arith
scale_small _ = omega arith

floor_exact : (p i : ℕ) → p - p % i ≡ p / i * i
floor_exact p i = omega (arith, div-add-mod p i)

-- The exact price in units of 10 ^ -places, rounded down, and this rounded down again to whole ticks.
abbrev pub whole_units : Tick → Decimal → ℕ
whole_units t d = rounded down (value d.digits) (d.exponent +ℤ pos (tick_config t).price)

abbrev pub floored_price : Tick → Decimal → ℕ
floored_price t d = whole_units t d / tick_units t * tick_units t

module _ (dbl : DoubleLibrary) where
  open dbl use {Double, stod, stod_fraction, to_chars}

  -- The tick itself is read exactly.
  increment_lem :
      (t : Tick)
      → (decimal dbl (stod (tick_text t)) >>= λ d. scaled d (tick_config t).price down)
        ≡ ok (tick_units t)
  increment_lem t =
      let ds = tick_digits t in
      let positive : 0 < value ds = rw (value-tick_digits t) (tick_units_pos t) in
      let (fin, neg, nonzero, d) =
        stod_fraction (tick_text t) ds (codes-tick_text t) (tick_digits-AllDigits t)
          (rw (length-tick_digits t) (few_places t)) positive in
      let made : decimal dbl (stod (tick_text t)) ≡ ok (denoted d.written) =
        unfold decimal in
        rw (fin, neg, nonzero, d.printed) (decimal_chars-print d.written d.is_written) in
      let exact =
        subst
          (λ k.
            value (denoted d.written).digits * 10 ^ (pos_part (denoted d.written).exponent + k)
            ≡ value ds * 10 ^ neg_part (denoted d.written).exponent)
          (length-tick_digits t) d.exact in
      rw made (
        scaled-decimal dbl (stod (tick_text t)) (denoted d.written) (tick_config t).price down made
        ∙ ap fits_u64 (
            rounded_exact (value (denoted d.written).digits) (value ds) (tick_config t).price
              (denoted d.written).exponent exact
            ∙ value-tick_digits t)
        ∙ fits_u64_lem (tick_units t) (small_units t))

  -- What the program takes for the protection price, and its tick.
  pub protection_units-exact :
      (t : Tick) (price : Double) (d : Decimal)
      → decimal dbl price ≡ ok d
      → protection_units dbl (tick_config t) price (tick_text t)
        ≡ (fits_u64 (whole_units t d) >>= λ _. ok (floored_price t d, tick_units t))
  unfolding protection_units
  protection_units-exact t price d h =
      let (dt, made, scaled_to) =
        >>=-eq-ok (decimal dbl (stod (tick_text t))) _ (increment_lem t) in
      rw (made, scaled_to, h, scaled-decimal dbl price d (tick_config t).price down h)
        (fits_u64-bind (whole_units t d) _ _
          λ fits. ap (λ u. ok (u, tick_units t)) (floor_exact (whole_units t d) (tick_units t)))

-- A protection price that is in range is a protection price.
pub in_range-IsProtection :
    (t : Tick) (units ticks : ℕ)
    → units ≡ ticks * tick_units t
    → out_of_range units (tick_units t) (scale_of t) ≡ false
    → IsProtection t units
in_range-IsProtection t units ticks e h =
    let at_least : tick_units t ≤ units = ground arith in
    let at_most : units ≤ scale_of t - tick_units t = ground arith in
    (ticks, e, some_ticks ticks e at_least, omega (arith, tick_small t))
  where
    some_ticks : (k : ℕ) → units ≡ k * tick_units t → tick_units t ≤ units → 0 < k
    some_ticks zero f le = omega (arith, tick_units_pos t)
    some_ticks (suc k) f le = omega arith
