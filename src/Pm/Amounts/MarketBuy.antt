-- ===== src/Pm/Amounts/MarketBuy.antt =====
-- `market_buy_amounts`: a spending cap in whole cents for whole hundredths of a share.
use native.Mathlib.Nat.{lt-div-mul-add, div-mul-le_self}
use polymarket_cpp.Prelude.{
  ℕ, suc, ◌+◌, ◌-◌, ◌*◌, ◌/◌, ◌^◌, ◌≤◌, ◌<◌, ◌≡◌, sym, ap, ◌∙◌, arith, value, Result, ok, ◌>>=◌,
  max_u64, ℤ, pos, negsuc, ◌+ℤ◌, +ℤ_zero, pos_part, neg_part, pow_pos,
}
use polymarket_cpp.Pm.Decimal.{Decimal, down, up, scaled, token_units}
use polymarket_cpp.Pm.Decimal.Scaled.{scaled-rounded}
use polymarket_cpp.Pm.Decimal.Cutting.{rounded, fits_u64}
use polymarket_cpp.Pm.Double.{DoubleLibrary}
use polymarket_cpp.Pm.U256.{U256Library}
use polymarket_cpp.Pm.Amounts.{decimal, validate_price, product, over_power, market_buy_amounts}
use polymarket_cpp.Pm.Amounts.Products.{
  fits_u64-bind, token_units_lem, scaled-decimal, product_lem, scaled-to_dec, decimal-AllDigits,
}

abbrev pub hundredths_of : Decimal → ℕ
hundredths_of size = rounded down (value size.digits) (size.exponent +ℤ pos 2)

-- The cost of `shares` hundredths at the price, in cents, rounded up.
abbrev pub cents_of : ℕ → Decimal → ℕ
cents_of shares price = rounded up (shares * value price.digits) price.exponent

abbrev pub capped_amounts : ℕ → Decimal → Result (ℕ × ℕ)
capped_amounts shares price = do
  s ← fits_u64 shares
  tokens ← fits_u64 (s * 10000)
  coefficient ← fits_u64 (value price.digits)
  cents ← fits_u64 (rounded up (s * coefficient) price.exponent)
  cash ← fits_u64 (cents * 10000)
  ok (cash, tokens)

-- Rounding up gives the least integer that is not below the exact number.
rounded_up_bounds :
    (v : ℕ) (shift : ℤ)
    → (v * 10 ^ pos_part shift ≤ rounded up v shift * 10 ^ neg_part shift)
      × (rounded up v shift * 10 ^ neg_part shift < v * 10 ^ pos_part shift + 10 ^ neg_part shift)
rounded_up_bounds v (pos s) = (omega arith, omega arith)
rounded_up_bounds v (negsuc k) =
    let b = 10 ^ suc k in
    let p : 0 < b = pow_pos (suc k) in
    let above : v + (b - 1) < (v + (b - 1)) / b * b + b = lt-div-mul-add p in
    let below : (v + (b - 1)) / b * b ≤ v + (b - 1) = div-mul-le_self (v + (b - 1)) b in
    (omega arith, omega arith)

-- `cash` is a number of whole cents; in the price's own units it is at least the cost of `tokens`, and
-- a cent less would not be.
abbrev pub IsCap : Decimal → ℕ → ℕ → Type 0
IsCap price cash tokens =
    let up_power = 10 ^ pos_part price.exponent in
    let down_power = 10 ^ neg_part price.exponent in
    (cents : ℕ) × (cash ≡ cents * 10000)
    × (tokens * value price.digits * up_power ≤ cash * down_power)
    × (cash * down_power < tokens * value price.digits * up_power + 10000 * down_power)

in_units :
    (shares v p m r cash tokens : ℕ)
    → cash ≡ r * 10000
    → tokens ≡ shares * 10000
    → shares * v * p ≤ r * m
    → r * m < shares * v * p + m
    → (tokens * v * p ≤ cash * m) × (cash * m < tokens * v * p + 10000 * m)
in_units shares v p m r cash tokens e f low high = rw (e, f) (omega arith, omega arith)

capped_amounts-IsCap :
    (shares : ℕ) (price : Decimal) {cash tokens : ℕ}
    → capped_amounts shares price ≡ ok (cash, tokens)
    → IsCap price cash tokens × (tokens ≡ shares * 10000)
capped_amounts-IsCap shares price {cash} {tokens} h =
    let cents = cents_of shares price in
    let (low, high) = rounded_up_bounds (shares * value price.digits) price.exponent in
    let (cash_eq, tokens_eq) = parts in
    let (paid, least) =
      in_units shares (value price.digits) (10 ^ pos_part price.exponent)
        (10 ^ neg_part price.exponent) cents cash tokens cash_eq tokens_eq low high in
    ((cents, cash_eq, paid, least), tokens_eq)
  where
    parts : (cash ≡ cents_of shares price * 10000) × (tokens ≡ shares * 10000)
    parts = ground arith

module _ (dbl : DoubleLibrary) (big : U256Library) where
  open dbl use {Double}
  open big use {to_dec}

  coefficient_lem :
      (d : Decimal) (price : Double)
      → decimal dbl price ≡ ok d
      → scaled (over_power d.digits 0) 0 down ≡ fits_u64 (value d.digits)
  unfolding ◌+ℤ◌
  coefficient_lem d price h =
      scaled-rounded (over_power d.digits 0) 0 down (decimal-AllDigits dbl price h)
      ∙ ap fits_u64 (omega arith)

  cents_step : ℕ → ℕ → ℕ → ℤ → Result (ℕ × ℕ)
  cents_step tokens s c e = do
    exact ← product big s c
    cents ← scaled (record { digits = to_dec exact; exponent = e }) 0 up
    cash ← token_units cents
    ok (cash, tokens)

  abbrev cents_exact : ℕ → ℕ → Result (ℕ × ℕ)
  cents_exact tokens v = do cents ← fits_u64 v; cash ← fits_u64 (cents * 10000); ok (cash, tokens)

  cents_step-exact :
      (tokens s c : ℕ) (e : ℤ)
      → s ≤ max_u64
      → c ≤ max_u64
      → cents_step tokens s c e ≡ cents_exact tokens (rounded up (s * c) e)
  unfolding cents_step
  cents_step-exact tokens s c e hs hc =
      let (p, made, n) = product_lem big s c hs hc in
      rw (made, scaled-to_dec big p e 0 up, n, +ℤ_zero e) (simp token_units_lem)

  tokens_step :
      (s c : ℕ) (e : ℤ)
      → s ≤ max_u64
      → (token_units s >>= λ tokens. fits_u64 c >>= λ c'. cents_step tokens s c' e) ≡ (
          fits_u64 (s * 10000) >>= λ tokens.
          fits_u64 c >>= λ c'. cents_exact tokens (rounded up (s * c') e))
  tokens_step s c e hs = rw (token_units_lem s) (
      fits_u64-bind (s * 10000) (λ t. fits_u64 c >>= λ c'. cents_step t s c' e)
        (λ t. fits_u64 c >>= λ c'. cents_exact t (rounded up (s * c') e))
        λ _.
          fits_u64-bind c (λ c'. cents_step (s * 10000) s c' e)
            (λ c'. cents_exact (s * 10000) (rounded up (s * c') e))
            λ hc. cents_step-exact (s * 10000) s c e hs hc)

  -- A marketable buy of a valid price is signed for the shares cut to hundredths and their exact cost
  -- rounded up to a cent; whatever does not fit 64 bits is an overflow.
  pub market_buy_amounts-exact :
      (size price : Double) (ds dp : Decimal)
      → validate_price dbl price ≡ ok tt
      → decimal dbl size ≡ ok ds
      → decimal dbl price ≡ ok dp
      → market_buy_amounts dbl big size price ≡ capped_amounts (hundredths_of ds) dp
  unfolding market_buy_amounts cents_step
  market_buy_amounts-exact size price ds dp hp hd he =
      rw (hp, hd, he, scaled-decimal dbl size ds 2 down hd, coefficient_lem dp price he)
        (fits_u64-bind _ _ _
          λ fits_s. tokens_step (hundredths_of ds) (value dp.digits) dp.exponent fits_s)

  -- The cash is the least whole number of cents that pays for the signed shares at the price, so the
  -- implied limit is at or above the price and less than a cent of cash above it.
  pub market_buy_amounts-IsCap :
      (size price : Double) (ds dp : Decimal) {cash tokens : ℕ}
      → validate_price dbl price ≡ ok tt
      → decimal dbl size ≡ ok ds
      → decimal dbl price ≡ ok dp
      → market_buy_amounts dbl big size price ≡ ok (cash, tokens)
      → IsCap dp cash tokens × (tokens ≡ hundredths_of ds * 10000)
  market_buy_amounts-IsCap size price ds dp {cash} {tokens} hp hd he h =
      capped_amounts-IsCap (hundredths_of ds) dp
        (sym (market_buy_amounts-exact size price ds dp hp hd he) ∙ h)
