-- ===== src/Pm/Amounts/Signed.antt =====
-- `protected_market_buy_amounts` as a whole: what it signs, and that its final check never throws.

use polymarket_cpp.Prelude.{
  ℕ, zero, suc, ◌+◌, ◌*◌, ◌/◌, leb, ◌≤◌, ◌<◌, ◌≡◌, refl, sym, ◌∙◌, subst, false, Error, arith,
  Bool-cases, inl, inr, Result, ok, invalid_argument, ◌>>=◌, ◌>>◌, throw_if, max_u64, pos, ◌+ℤ◌,
  +ℤ_zero, negated, value, >>=-eq-ok, ok_pair, throw_if-eq-ok,
}
use polymarket_cpp.Pm.Decimal.{Decimal, down, up, token_units}
use polymarket_cpp.Pm.Decimal.Cutting.{rounded, fits_u64}
use polymarket_cpp.Pm.Double.{DoubleLibrary}
use polymarket_cpp.Pm.U256.{U256Library}
use polymarket_cpp.Pm.Amounts.{
  decimal, validate_price, cash_cents, minimum_tokens, check_ratio, out_of_range, not_positive,
  protected_market_buy_amounts,
}
use polymarket_cpp.Pm.Amounts.Ticks.{
  Tick, tick_config, tick_text, tick_units, tick_units_pos, config_for-tick_text,
}
use polymarket_cpp.Pm.Amounts.Products.{
  fits_u64-ok, fits_u64-bind, token_units_lem, scaled-decimal, product_lem, scaled-to_dec,
}
use polymarket_cpp.Pm.Amounts.Protection.{
  scale_small, in_range-IsProtection, whole_units, floored_price, protection_units-exact,
}
use polymarket_cpp.Pm.Amounts.Protected.{
  scale_of, tokens_of, IsProtection, minimum_tokens-exact, check_ratio-holds, power10_lem,
  ratio_bounds,
}

protection_pos : (t : Tick) (units : ℕ) → IsProtection t units → 0 < units
protection_pos t units (zero, e, pos_ticks, room) = elim pos_ticks [ ]
protection_pos t units (suc k, e, pos_ticks, room) = omega (arith, tick_units_pos t)

abbrev pub out_of_range_error : Error
out_of_range_error = invalid_argument "pm: protection price out of range for tick size"

abbrev pub not_positive_error : Error
not_positive_error = invalid_argument "pm: protected market BUY must have positive amounts"

abbrev signed : ℕ → ℕ → Result (ℕ × ℕ)
signed cash tokens = ok (cash, tokens)

-- What the program signs at a tick, for the size in hundredths and the floored price in units.
abbrev pub protected_result : Tick → ℕ → ℕ → Result (ℕ × ℕ)
protected_result t hundredths units = do
  shares ← fits_u64 hundredths
  cents ← fits_u64 (rounded up (shares * units) (negated (tick_config t).price))
  cash ← fits_u64 (cents * 10000)
  tokens ← fits_u64 (tokens_of t cents units)
  throw_if (not_positive cash tokens) not_positive_error
  ok (cash, tokens)

module _ (big : U256Library) where
  open big use {to_dec}

  cash_cents-exact :
      (t : Tick) (shares units : ℕ)
      → shares ≤ max_u64
      → units ≤ max_u64
      → cash_cents big (tick_config t).price shares units
        ≡ fits_u64 (rounded up (shares * units) (negated (tick_config t).price))
  unfolding cash_cents
  cash_cents-exact t shares units hs hu =
      let (p, made, n) = product_lem big shares units hs hu in
      let e = negated (tick_config t).price in rw (made, scaled-to_dec big p e 0 up, n, +ℤ_zero e)

  -- The rest of the function behind the cash and the tokens.
  last_steps :
      (t : Tick) (cents units tokens : ℕ)
      → IsProtection t units
      → cents * 10000 ≤ max_u64
      → tokens ≡ tokens_of t cents units
      → tokens ≤ max_u64
      → (throw_if (not_positive (cents * 10000) tokens) not_positive_error
          >> (check_ratio big (scale_of t) (cents * 10000) tokens units (tick_units t)
              >> signed (cents * 10000) tokens))
        ≡ (throw_if (not_positive (cents * 10000) tokens) not_positive_error
            >> signed (cents * 10000) tokens)
  last_steps t cents units tokens prot hc e ht =
      elim (Bool-cases (not_positive (cents * 10000) tokens)) [
        | inl bad ↦ rw bad refl
        | inr good ↦
            let some_cents : 0 < cents = ground arith in
            rw (good, check_ratio-holds big t cents units tokens prot some_cents hc e ht)
      ]

  steps : Tick → ℕ → ℕ → Result (ℕ × ℕ)
  steps t shares units = do
    cents ← cash_cents big (tick_config t).price shares units
    cash ← token_units cents
    tokens ← minimum_tokens big (scale_of t) (tick_config t).amount cents units
    throw_if (not_positive cash tokens) not_positive_error
    check_ratio big (scale_of t) cash tokens units (tick_units t)
    ok (cash, tokens)

  exact_steps : Tick → ℕ → ℕ → Result (ℕ × ℕ)
  exact_steps t shares units = do
    cents ← fits_u64 (rounded up (shares * units) (negated (tick_config t).price))
    cash ← fits_u64 (cents * 10000)
    tokens ← fits_u64 (tokens_of t cents units)
    throw_if (not_positive cash tokens) not_positive_error
    ok (cash, tokens)

  steps-exact :
      (t : Tick) (shares units : ℕ)
      → IsProtection t units
      → shares ≤ max_u64
      → steps t shares units ≡ exact_steps t shares units
  unfolding steps exact_steps
  steps-exact t shares units prot hs =
      let units_fit : units ≤ max_u64 = omega (arith, prot.3, scale_small t) in
      rw (cash_cents-exact t shares units hs units_fit) (
        fits_u64-bind (rounded up (shares * units) (negated (tick_config t).price)) _ _ λ hc.
          rw (token_units_lem (rounded up (shares * units) (negated (tick_config t).price))) (
            fits_u64-bind (rounded up (shares * units) (negated (tick_config t).price) * 10000) _ _
              λ hcash.
                rw
                  (minimum_tokens-exact big t
                    (rounded up (shares * units) (negated (tick_config t).price)) units hc
                    (protection_pos t units prot) (omega (arith, prot.3, scale_small t)))
                  (fits_u64-bind
                    (tokens_of t (rounded up (shares * units) (negated (tick_config t).price))
                      units)
                    _ _
                    λ ht.
                      last_steps t (rounded up (shares * units) (negated (tick_config t).price))
                        units
                        (tokens_of t (rounded up (shares * units) (negated (tick_config t).price))
                          units)
                        prot hcash refl ht)))

-- The cash at the scale stays at or above the tokens at the protection price, and below them at the
-- next tick.
abbrev pub InBand : Tick → ℕ → ℕ → ℕ → Type 0
InBand t units cash tokens =
    (0 < cash)
    × (0 < tokens)
    × (tokens * units ≤ cash * scale_of t)
    × (cash * scale_of t < tokens * (units + tick_units t))

last_step-InBand :
    (t : Tick) (cents units : ℕ) {cash tokens : ℕ}
    → IsProtection t units
    → (throw_if (not_positive (cents * 10000) (tokens_of t cents units)) not_positive_error
        >> signed (cents * 10000) (tokens_of t cents units))
      ≡ signed cash tokens
    → InBand t units cash tokens
last_step-InBand t cents units {cash} {tokens} prot h =
    let (good, same) =
      throw_if-eq-ok (not_positive (cents * 10000) (tokens_of t cents units)) not_positive_error _
        h in
    let (e, f) = ok_pair same in
    let some_cents : 0 < cents = positive_cents cents _ good in
    let some_tokens : 0 < tokens_of t cents units = positive_tokens (cents * 10000) _ good in
    let (low, high) = ratio_bounds t cents units prot some_cents in
    subst (λ c. InBand t units c tokens) e
      (subst (λ k. InBand t units (cents * 10000) k) f
        (omega (arith, some_cents), some_tokens, low, high))
  where
    positive_cents : (c k : ℕ) → not_positive (c * 10000) k ≡ false → 0 < c
    positive_cents c k g = ground arith

    positive_tokens : (c k : ℕ) → not_positive c k ≡ false → 0 < k
    positive_tokens c k g = ground arith

pub protected_result-InBand :
    (t : Tick) (hundredths units : ℕ) {cash tokens : ℕ}
    → IsProtection t units
    → protected_result t hundredths units ≡ ok (cash, tokens)
    → InBand t units cash tokens
protected_result-InBand t hundredths units {cash} {tokens} prot h =
    let (s, _, h1) = >>=-eq-ok (fits_u64 hundredths) _ h in
    let (c, _, h2) =
      >>=-eq-ok (fits_u64 (rounded up (s * units) (negated (tick_config t).price))) _ h1 in
    let (m, e, h3) = >>=-eq-ok (fits_u64 (c * 10000)) _ h2 in
    let (k, f, h4) = >>=-eq-ok (fits_u64 (tokens_of t c units)) _ h3 in
    last_step-InBand t c units prot (
      subst
        (λ x.
          (throw_if (not_positive x (tokens_of t c units)) not_positive_error
            >> signed x (tokens_of t c units))
          ≡ signed cash tokens)
        (fits_u64-ok (c * 10000) e).0
        (subst
          (λ x. (throw_if (not_positive m x) not_positive_error >> signed m x) ≡ signed cash tokens)
          (fits_u64-ok (tokens_of t c units) f).0 h4))

module _ (dbl : DoubleLibrary) (big : U256Library) where
  open dbl use {Double}

  floored_steps : Tick → Decimal → Decimal → Result (ℕ × ℕ)
  floored_steps t ds dp = do
    throw_if (out_of_range (floored_price t dp) (tick_units t) (scale_of t)) out_of_range_error
    protected_result t (rounded down (value ds.digits) (ds.exponent +ℤ pos 2)) (floored_price t dp)

  -- For decimals `ds` of the size and `dp` of the price, a protected market buy is for the shares cut to
  -- hundredths, and for the exact price rounded down to the tick's digits and then down to a whole tick: it
  -- signs the exact cost of the shares at this price, rounded up to a cent, and the exact quotient by the
  -- price, floored at the table's precision. A price out of range, an amount that does not fit and an amount
  -- of zero are errors, and the last check on the signed ratio never throws.
  pub protected-exact :
      (t : Tick) (size price : Double) (ds dp : Decimal)
      → validate_price dbl price ≡ ok tt
      → decimal dbl price ≡ ok dp
      → decimal dbl size ≡ ok ds
      → protected_market_buy_amounts dbl big size price (tick_text t) ≡ (
          fits_u64 (whole_units t dp) >>= λ _.
          throw_if
            (out_of_range (floored_price t dp) (tick_units t) (scale_of t))
            out_of_range_error
          >> protected_result t
              (rounded down (value ds.digits) (ds.exponent +ℤ pos 2))
              (floored_price t dp))
  unfolding protected_market_buy_amounts steps exact_steps floored_steps
  protected-exact t size price ds dp hv hp hd = elim (Bool-cases (leb (whole_units t dp) max_u64)) [
    | inr over ↦
        rw (hv, config_for-tick_text t, protection_units-exact dbl t price dp hp, over) refl
    | inl small ↦
        rw
          (
            hv,
            config_for-tick_text t,
            protection_units-exact dbl t price dp hp,
            small,
            hd,
            scaled-decimal dbl size ds 2 down hd,
            power10_lem (tick_config t).price,
          )
          (elim (Bool-cases (out_of_range (floored_price t dp) (tick_units t) (scale_of t))) [
            | inl out ↦ rw out refl
            | inr fits ↦ rw fits (
                fits_u64-bind (rounded down (value ds.digits) (ds.exponent +ℤ pos 2))
                  (λ s. steps big t s (floored_price t dp))
                  (λ s. exact_steps big t s (floored_price t dp))
                  λ hs.
                    steps-exact big t (rounded down (value ds.digits) (ds.exponent +ℤ pos 2))
                      (floored_price t dp)
                      (in_range-IsProtection t (floored_price t dp)
                        (whole_units t dp / tick_units t) refl fits)
                      hs)
          ])
  ]

  -- What a protected market buy signs is positive, and its ratio of cash to tokens is at or above the
  -- protection price, which is the exact price of decimal `dp` rounded down to a whole tick, and below the
  -- next tick.
  pub protected-ratio :
      (t : Tick) (size price : Double) (ds dp : Decimal) {cash tokens : ℕ}
      → validate_price dbl price ≡ ok tt
      → decimal dbl price ≡ ok dp
      → decimal dbl size ≡ ok ds
      → protected_market_buy_amounts dbl big size price (tick_text t) ≡ ok (cash, tokens)
      → InBand t (floored_price t dp) cash tokens
  unfolding floored_steps
  protected-ratio t size price ds dp {cash} {tokens} hv hp hd h =
      let h' = sym (protected-exact t size price ds dp hv hp hd) ∙ h in
      let (_, _, ran) = >>=-eq-ok (fits_u64 (whole_units t dp)) (λ _. floored_steps t ds dp) h' in
      let (fits, made) =
        throw_if-eq-ok (out_of_range (floored_price t dp) (tick_units t) (scale_of t))
          out_of_range_error
          (protected_result t (rounded down (value ds.digits) (ds.exponent +ℤ pos 2))
            (floored_price t dp))
          ran in
      protected_result-InBand t (rounded down (value ds.digits) (ds.exponent +ℤ pos 2))
        (floored_price t dp)
        (in_range-IsProtection t (floored_price t dp) (whole_units t dp / tick_units t) refl fits)
        made
