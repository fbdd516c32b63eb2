-- ===== src/Pm/Amounts/Protected.antt =====
-- `protected_market_buy_amounts`: the check on the signed ratio never fails.
use native.Mathlib.Nat.{mul-le-mul, mul-le-mul_right, div-mul-le_self, lt-div-mul-add, le_trans}
use polymarket_cpp.Prelude.{
  ℕ, zero, suc, ◌+◌, ◌-◌, ◌*◌, ◌/◌, ◌^◌, ◌≤◌, ◌<◌, ◌≡◌, refl, sym, ap, ap₂, ◌∙◌, subst, true, false,
  arith, ltb, leb, Bool-cases, inl, inr, ok, max_u64, pos, ◌+ℤ◌, negated, le→ltb, lt→ltb,
  pow_ten-suc,
}
use polymarket_cpp.Pm.Decimal.{down, power10, divide_down}
use polymarket_cpp.Pm.Decimal.Scaled.{scaled-rounded}
use polymarket_cpp.Pm.Decimal.Cutting.{fits_u64}
use polymarket_cpp.Pm.Decimal.Division.{value-divide_down, divide_down-AllDigits}
use polymarket_cpp.Pm.U256.{U256Library, u256_mod}
use polymarket_cpp.Pm.Amounts.{over_power, minimum_tokens, check_ratio}
use polymarket_cpp.Pm.Amounts.Ticks.{
  Tick, tenth, hundredth, half_cent, quarter_cent, thousandth, ten_thousandth, tick_config,
  tick_units, tick_units_pos,
}
use polymarket_cpp.Pm.Amounts.Products.{product_lem, to_dec-AllDigits, value-to_dec}

abbrev pub scale_of : Tick → ℕ
scale_of t = 10 ^ (tick_config t).price

abbrev pub amount_power : Tick → ℕ
amount_power t = 10 ^ (tick_config t).amount

-- The quotient that `divide_down` spells, and the tokens that it stands for.
abbrev pub quotient_of : Tick → ℕ → ℕ → ℕ
quotient_of t cents units = cents * scale_of t * amount_power t / (100 * units)

abbrev pub tokens_of : Tick → ℕ → ℕ → ℕ
tokens_of t cents units = quotient_of t cents units * 10 ^ (6 - (tick_config t).amount)

-- A protection price in range: a positive number of whole ticks, at least one tick below one.
abbrev pub IsProtection : Tick → ℕ → Type 0
IsProtection t units =
    (ticks : ℕ) × (units ≡ ticks * tick_units t) × (0 < ticks) × (units + tick_units t ≤ scale_of t)

-- The arithmetic, for a scale `s`, an amount power `p` with p * m = 10 ^ 6 and ticks of `i` units:
-- where w ticks are so few that w * 100 * w * i fits s * p, the tokens `q * m` keep the signed ratio
-- at or above the price of w ticks and below the price of w + 1.
pos_product : (a b : ℕ) → 0 < a → 0 < b → 0 < a * b
pos_product a b ha hb = let k : 1 * 1 ≤ a * b = mul-le-mul ha hb in omega arith

module _ (s p m i c w q : ℕ) (powers : p * m ≡ 1000000) (m_pos : 0 < m)
    (tight : w * (100 * (w * i)) ≤ s * p) (cents_pos : 0 < c)
    (low : q * (100 * (w * i)) ≤ c * s * p)
    (high : c * s * p < q * (100 * (w * i)) + 100 * (w * i)) where
  ticks-le : w ≤ q
  ticks-le = elim (Bool-cases (leb w q)) [
    | inl e ↦ ground arith
    | inr e ↦
        let less : q + 1 ≤ w = ground arith in
        let more : (q + 1) * (100 * (w * i)) ≤ w * (100 * (w * i)) =
          mul-le-mul_right (100 * (w * i)) less in
        let once : 1 * (s * p) ≤ c * (s * p) = mul-le-mul_right (s * p) cents_pos in
        absurd (omega arith)
  ]

  in_powers : c * s * p * m ≡ c * s * 1000000
  in_powers =
      let grouped : c * s * p * m ≡ c * s * (p * m) = omega arith in
      grouped ∙ ap (λ x. c * s * x) powers

  at_tick : q * m * (w * i) ≤ c * 10000 * s
  at_tick =
      let scaled_low : q * (100 * (w * i)) * m ≤ c * s * p * m = mul-le-mul_right m low in
      omega (arith, in_powers)

  below_next : c * 10000 * s < q * m * (w * i + i)
  below_next =
      let scaled_high : suc (c * s * p) * m ≤ (q * (100 * (w * i)) + 100 * (w * i)) * m =
        mul-le-mul_right m high in
      let enough : w * (i * m) ≤ q * (i * m) = mul-le-mul_right (i * m) ticks-le in
      omega (arith, in_powers)

tight_bound : (w k i : ℕ) → w ≤ k → w * (100 * (w * i)) ≤ k * (100 * (k * i))
tight_bound w k i h = let inner : w * i ≤ k * i = mul-le-mul_right i h in mul-le-mul h (omega arith)

-- The six rows of the table leave that room.
tight_ticks :
    (t : Tick) (w : ℕ)
    → w * tick_units t + tick_units t ≤ scale_of t
    → w * (100 * (w * tick_units t)) ≤ scale_of t * amount_power t
tight_ticks tenth w h = le_trans (tight_bound w 9 1 (omega arith)) (omega arith)
tight_ticks hundredth w h = le_trans (tight_bound w 99 1 (omega arith)) (omega arith)
tight_ticks half_cent w h = le_trans (tight_bound w 199 5 (omega arith)) (omega arith)
tight_ticks quarter_cent w h = le_trans (tight_bound w 399 25 (omega arith)) (omega arith)
tight_ticks thousandth w h = le_trans (tight_bound w 999 1 (omega arith)) (omega arith)
tight_ticks ten_thousandth w h = le_trans (tight_bound w 9999 1 (omega arith)) (omega arith)

abbrev spare : Tick → ℕ
spare t = 10 ^ (6 - (tick_config t).amount)

powers_of : (t : Tick) → amount_power t * spare t ≡ 1000000
powers_of tenth = refl
powers_of _ = refl

spare_pos : (t : Tick) → 0 < spare t
spare_pos tenth = omega arith
spare_pos _ = omega arith

-- The signed ratio permits the protection tick and excludes the next one.
pub ratio_bounds :
    (t : Tick) (cents units : ℕ)
    → IsProtection t units
    → 0 < cents
    → (tokens_of t cents units * units ≤ cents * 10000 * scale_of t)
      × (cents * 10000 * scale_of t < tokens_of t cents units * (units + tick_units t))
ratio_bounds t cents units (ticks, e, pos_ticks, room) cents_pos =
    let q = quotient_of t cents units in
    let d = 100 * units in
    let units_pos : 0 < units =
      rw e (pos_product ticks (tick_units t) pos_ticks (tick_units_pos t)) in
    let low : q * d ≤ cents * scale_of t * amount_power t = div-mul-le_self _ d in
    let high : cents * scale_of t * amount_power t < q * d + d = lt-div-mul-add (omega arith) in
    let room' = subst (λ u. u + tick_units t ≤ scale_of t) e room in
    let low' = subst (λ u. q * (100 * u) ≤ cents * scale_of t * amount_power t) e low in
    let high' = subst (λ u. cents * scale_of t * amount_power t < q * (100 * u) + 100 * u) e high in
    let tight = tight_ticks t ticks room' in
    (
      subst (λ u. q * spare t * u ≤ cents * 10000 * scale_of t) (sym e)
          (at_tick (scale_of t) (amount_power t) (spare t) (tick_units t) cents ticks q
            (powers_of t) (spare_pos t) tight cents_pos low' high'),
      subst (λ u. cents * 10000 * scale_of t < q * spare t * (u + tick_units t)) (sym e)
          (below_next (scale_of t) (amount_power t) (spare t) (tick_units t) cents ticks q
            (powers_of t) (spare_pos t) tight cents_pos low' high'),
    )

pub power10_lem : (n : ℕ) → power10 n ≡ 10 ^ n
unfolding power10
power10_lem zero = refl
power10_lem (suc n) = rw (power10_lem n) (omega (arith, pow_ten-suc n))

token_shift :
    (t : Tick) → negated (tick_config t).amount +ℤ pos 6 ≡ pos (6 - (tick_config t).amount)
unfolding ◌+ℤ◌
token_shift tenth = refl
token_shift _ = refl

small_powers : (t : Tick) → (scale_of t ≤ 10000) × (amount_power t ≤ 1000000)
small_powers tenth = omega arith
small_powers _ = omega arith

module _ (big : U256Library) where
  open big use {U256, number, to_dec, less, checked_mul_u64, checked_mul_lem, less_lem}

  pub less-numbers : (u v : U256) {a b : ℕ} → number u ≡ a → number v ≡ b → less u v ≡ ltb a b
  less-numbers u v e f = less_lem u v ∙ ap₂ ltb e f

  -- The minimum tokens are the exact quotient, floored at the table's precision.
  pub minimum_tokens-exact :
      (t : Tick) (cents units : ℕ)
      → cents ≤ max_u64
      → 0 < units
      → units ≤ 10000
      → minimum_tokens big (scale_of t) (tick_config t).amount cents units
        ≡ fits_u64 (tokens_of t cents units)
  unfolding minimum_tokens
  minimum_tokens-exact t cents units hc units_pos units_small =
      let (small_scale, small_amount) = small_powers t in
      let (first, made, n) = product_lem big cents (scale_of t) hc (omega arith) in
      let bound : cents * scale_of t * amount_power t ≤ max_u64 * 10000 * 1000000 =
        mul-le-mul (mul-le-mul hc small_scale) small_amount in
      let (second, made', n') =
        checked_mul_lem first (amount_power t)
          (subst (λ m. m * amount_power t < u256_mod) (sym n) (omega arith)) in
      let d = 100 * units in
      let exact : number second ≡ cents * scale_of t * amount_power t =
        n' ∙ ap (λ m. m * amount_power t) n in
      let digits = to_dec-AllDigits big second in
      rw (made, power10_lem (tick_config t).amount, made')
        (scaled-rounded (over_power (divide_down (to_dec second) d) (tick_config t).amount) 6 down
            (divide_down-AllDigits (to_dec second) d digits (omega arith) (omega arith))
          ∙ rw (
            token_shift t,
            value-divide_down (to_dec second) d digits (omega arith) (omega arith),
            value-to_dec big second,
            exact,
          ))

  pub check_ratio-holds :
      (t : Tick) (cents units tokens : ℕ)
      → IsProtection t units
      → 0 < cents
      → cents * 10000 ≤ max_u64
      → tokens ≡ tokens_of t cents units
      → tokens ≤ max_u64
      → check_ratio big (scale_of t) (cents * 10000) tokens units (tick_units t) ≡ ok tt
  unfolding check_ratio
  check_ratio-holds t cents units tokens prot cents_pos hc e ht =
      let (permits, excludes) = ratio_bounds t cents units prot cents_pos in
      let (small_scale, _) = small_powers t in
      let room = prot.3 in
      let (cash_product, made, n) = product_lem big (cents * 10000) (scale_of t) hc (omega arith) in
      let (at, made', n') = product_lem big tokens units ht (omega arith) in
      let (next, made'', n'') = product_lem big tokens (units + tick_units t) ht (omega arith) in
      let not_below : less cash_product at ≡ false =
        less-numbers cash_product at n n'
        ∙ le→ltb (cents * 10000 * scale_of t) (tokens * units)
            (subst (λ k. k * units ≤ cents * 10000 * scale_of t) (sym e) permits) in
      let below : less cash_product next ≡ true =
        less-numbers cash_product next n n''
        ∙ lt→ltb (cents * 10000 * scale_of t) (tokens * (units + tick_units t)) (
            subst (λ k. cents * 10000 * scale_of t < k * (units + tick_units t)) (sym e)
              excludes) in
      rw (made, made', not_below, made'', below)
