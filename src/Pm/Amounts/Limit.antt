-- ===== src/Pm/Amounts/Limit.antt =====
-- `order_amounts` and `market_buy_amounts`: what is signed, exactly.
use polymarket_cpp.Prelude.{
  ℕ, ◌-◌, ◌*◌, ◌^◌, ◌≤◌, ◌≡◌, refl, sym, ap, ◌∙◌, subst, String, arith, value, Result, ok, ◌>>=◌,
  max_u64, pos, ◌+ℤ◌, negated, >>=-eq-ok,
}
use polymarket_cpp.Pm.Decimal.{Decimal, down, nearest, scaled, token_units}
use polymarket_cpp.Pm.Decimal.Cutting.{rounded, fits_u64}
use polymarket_cpp.Pm.Double.{DoubleLibrary}
use polymarket_cpp.Pm.U256.{U256Library}
use polymarket_cpp.Pm.Amounts.{
  Side, buy, sell, other_side, RoundConfig, check_side, by_side, config_for, decimal,
  validate_price, product, over_power, order_amounts,
}
use polymarket_cpp.Pm.Amounts.Ticks.{Tick, tenth, tick_config, config_for-cases}
use polymarket_cpp.Pm.Amounts.Products.{
  fits_u64-bind, token_units_lem, scaled-decimal, product_lem, scaled-to_dec,
}

-- Whole shares of the size and units of the price, as the table rounds them.
abbrev pub shares_of : RoundConfig → Decimal → ℕ
shares_of rc size = rounded down (value size.digits) (size.exponent +ℤ pos rc.size)

abbrev pub units_of : RoundConfig → Decimal → ℕ
units_of rc price = rounded nearest (value price.digits) (price.exponent +ℤ pos rc.price)

-- A limit order from whole numbers of hundredth shares and price units.
abbrev pub limit_amounts : Side → RoundConfig → ℕ → ℕ → Result (ℕ × ℕ)
limit_amounts side rc shares units = do
  s ← fits_u64 shares
  u ← fits_u64 units
  cash ← fits_u64 (s * u * 10 ^ (6 - rc.amount))
  tokens ← fits_u64 (s * 10000)
  ok (by_side side cash tokens)

amount_shift :
    (t : Tick) → negated (tick_config t).amount +ℤ pos 6 ≡ pos (6 - (tick_config t).amount)
unfolding ◌+ℤ◌
amount_shift tenth = refl
amount_shift _ = refl

-- cash * 10 ^ price_digits is tokens * units: the table's amount digits are size and price digits.
exact_ratio :
    (t : Tick) (s u : ℕ)
    → s * u * 10 ^ (6 - (tick_config t).amount) * 10 ^ (tick_config t).price ≡ s * 10000 * u
exact_ratio tenth s u = omega arith
exact_ratio _ s u = omega arith

limit_amounts-ok :
    (side : Side) (t : Tick) (s u maker taker : ℕ)
    → check_side side ≡ ok tt
    → limit_amounts side (tick_config t) s u ≡ ok (maker, taker)
    → let (cash, tokens) = by_side side maker taker in
      (cash ≡ s * u * 10 ^ (6 - (tick_config t).amount))
      × (tokens ≡ s * 10000)
      × (cash ≤ max_u64)
      × (tokens ≤ max_u64)
limit_amounts-ok buy t s u maker taker hs h = ground arith
limit_amounts-ok sell t s u maker taker hs h = ground arith
limit_amounts-ok (other_side n) t s u maker taker hs h = cc

-- What the pair of amounts says of the shares and the price units behind it.
abbrev pub SignedRatio : Side → RoundConfig → ℕ → ℕ → ℕ → ℕ → Type 0
SignedRatio side rc shares units maker taker =
    let (cash, tokens) = by_side side maker taker in
    (cash * 10 ^ rc.price ≡ tokens * units)
    × (tokens ≡ shares * 10000)
    × (cash ≤ max_u64)
    × (tokens ≤ max_u64)

limit_amounts-SignedRatio :
    (side : Side) (t : Tick) (s u maker taker : ℕ)
    → check_side side ≡ ok tt
    → limit_amounts side (tick_config t) s u ≡ ok (maker, taker)
    → SignedRatio side (tick_config t) s u maker taker
limit_amounts-SignedRatio side t s u maker taker hs h =
    let (cash, tokens, fits_cash, fits_tokens) = limit_amounts-ok side t s u maker taker hs h in
    (
      ap (λ m. m * 10 ^ (tick_config t).price) cash
          ∙ exact_ratio t s u
          ∙ sym (ap (λ m. m * u) tokens),
      tokens,
      fits_cash,
      fits_tokens,
    )

module _ (dbl : DoubleLibrary) (big : U256Library) where
  open dbl use {Double}
  open big use {to_dec}

  cash_tail : (side : Side) (t : Tick) (s u : ℕ) → Result (ℕ × ℕ)
  cash_tail side t s u = do
    exact ← product big s u
    cash ← scaled (over_power (to_dec exact) (tick_config t).amount) 6 down
    tokens ← token_units s
    ok (by_side side cash tokens)

  cash_tail-eq :
      (side : Side) (t : Tick) (s u : ℕ)
      → s ≤ max_u64
      → u ≤ max_u64
      → cash_tail side t s u ≡ (
          fits_u64 (s * u * 10 ^ (6 - (tick_config t).amount)) >>= λ cash.
          fits_u64 (s * 10000) >>= λ tokens. ok (by_side side cash tokens))
  unfolding cash_tail
  cash_tail-eq side t s u hs hu =
      let (p, made, n) = product_lem big s u hs hu in
      rw (
        made,
        scaled-to_dec big p (negated (tick_config t).amount) 6 down,
        amount_shift t,
        n,
        token_units_lem s,
      )

  order_amounts_tick :
      (side : Side) (size price : Double) (tick : String) (t : Tick) (ds dp : Decimal)
      → config_for tick ≡ ok (tick_config t)
      → validate_price dbl price ≡ ok tt
      → check_side side ≡ ok tt
      → decimal dbl size ≡ ok ds
      → decimal dbl price ≡ ok dp
      → order_amounts dbl big side size price tick
        ≡ limit_amounts side
            (tick_config t)
            (shares_of (tick_config t) ds)
            (units_of (tick_config t) dp)
  unfolding order_amounts cash_tail
  order_amounts_tick side size price tick t ds dp hc hp hs hd he =
      rw
        (
          hc,
          hp,
          hs,
          hd,
          he,
          scaled-decimal dbl size ds (tick_config t).size down hd,
          scaled-decimal dbl price dp (tick_config t).price nearest he,
        )
        (fits_u64-bind _ _ _ λ fits_s. fits_u64-bind _ _ _ λ fits_u.
          cash_tail-eq side t (shares_of (tick_config t) ds) (units_of (tick_config t) dp) fits_s
            fits_u)

  -- A limit order is signed for exactly shares x price units, with the shares cut to hundredths and
  -- the price rounded to the tick's digits; whatever does not fit 64 bits is an overflow, and
  -- nothing wraps around.
  pub order_amounts-exact :
      (side : Side) (size price : Double) (tick : String) (rc : RoundConfig) (ds dp : Decimal)
      → config_for tick ≡ ok rc
      → validate_price dbl price ≡ ok tt
      → check_side side ≡ ok tt
      → decimal dbl size ≡ ok ds
      → decimal dbl price ≡ ok dp
      → order_amounts dbl big side size price tick
        ≡ limit_amounts side rc (shares_of rc ds) (units_of rc dp)
  order_amounts-exact side size price tick rc ds dp hc hp hs hd he =
      let (t, _, e) = config_for-cases tick hc in
      subst
        (λ c.
          config_for tick ≡ ok c
          → order_amounts dbl big side size price tick
            ≡ limit_amounts side c (shares_of c ds) (units_of c dp))
        (sym e) (λ k. order_amounts_tick side size price tick t ds dp k hp hs hd he) hc

  -- What a signed limit order promises: the maker and taker amounts stand in exactly the ratio of the
  -- snapped price, cash * 10 ^ price_digits = tokens * price_units.
  pub order_amounts-ratio :
      (side : Side) (size price : Double) (tick : String) (rc : RoundConfig) (ds dp : Decimal)
      {maker taker : ℕ}
      → config_for tick ≡ ok rc
      → decimal dbl size ≡ ok ds
      → decimal dbl price ≡ ok dp
      → order_amounts dbl big side size price tick ≡ ok (maker, taker)
      → SignedRatio side rc (shares_of rc ds) (units_of rc dp) maker taker
  unfolding order_amounts
  order_amounts-ratio side size price tick rc ds dp {maker} {taker} hc hd he h =
      let (c, _, h1) = >>=-eq-ok (config_for tick) _ h in
      let (v, hp, h2) = >>=-eq-ok (validate_price dbl price) _ h1 in
      let (w, hs, _) = >>=-eq-ok (check_side side) _ h2 in
      let (t, _, e) = config_for-cases tick hc in
      let signed = sym (order_amounts-exact side size price tick rc ds dp hc hp hs hd he) ∙ h in
      subst
        (λ c.
          limit_amounts side c (shares_of c ds) (units_of c dp) ≡ ok (maker, taker)
          → SignedRatio side c (shares_of c ds) (units_of c dp) maker taker)
        (sym e)
        (limit_amounts-SignedRatio side t (shares_of (tick_config t) ds)
          (units_of (tick_config t) dp) maker taker hs)
        signed
