-- ===== src/Pm/Amounts/Finest.antt =====
-- `validate_protected_market_buy_price`: what amounts it lets through.
use polymarket_cpp.Prelude.{
  ℕ, leb, Bool-cases, inl, inr, ◌+◌, ◌*◌, ◌/◌, ◌≤◌, ◌<◌, ◌≡◌, refl, sym, ◌∙◌, Bool, true, false,
  ◌||◌, not, arith, ◌==◌, Result, ok, Error, invalid_argument, ◌>>=◌, ◌>>◌, throw_if, ltb→lt,
  >>=-eq-ok, throw_if-eq-ok, max_u64,
}
use polymarket_cpp.Pm.Double.{DoubleLibrary}
use polymarket_cpp.Pm.U256.{U256Library}
use polymarket_cpp.Pm.Amounts.{
  decimal, validate_price, product, out_of_range, validate_protected_market_buy_price,
}
use polymarket_cpp.Pm.Amounts.Ticks.{
  Tick, tenth, tick_config, tick_text, tick_units, config_for-tick_text,
}
use polymarket_cpp.Pm.Amounts.Products.{product_lem}
use polymarket_cpp.Pm.Amounts.Protected.{scale_of, less-numbers, power10_lem}
use polymarket_cpp.Pm.Amounts.Protection.{
  scale_small, whole_units, floored_price, protection_units-exact, in_range-IsProtection,
}
use polymarket_cpp.Pm.Decimal.{Decimal}
use polymarket_cpp.Pm.Decimal.Cutting.{fits_u64}

-- The finest tick above the protection price, in units of 10 ^ -4.
abbrev pub next_finest : Tick → ℕ → ℕ
next_finest t units = units * (10000 / scale_of t) + 1

small_next : (t : Tick) (units : ℕ) → units ≤ 10000 → next_finest t units ≤ max_u64
small_next tenth units h = omega arith
small_next _ units h = omega arith

checks :
    (a : Bool) (cash tokens : ℕ)
    → (a || cash == 0 || tokens == 0) ≡ false
    → (a ≡ false) × (0 < cash) × (0 < tokens)
checks a cash tokens h = ground arith

not_thrown :
    (bad : Bool) (e : Error) → ◌≡◌ {A = Result (Unit {0})} (throw_if bad e) (ok tt) → bad ≡ false
not_thrown true e h = cc
not_thrown false e h = refl

is_less : (a : Bool) → not a ≡ false → a ≡ true
is_less a h = ground arith

module _ (dbl : DoubleLibrary) (big : U256Library) where
  open dbl use {Double}
  open big use {less}

  -- The end of the function.
  bound_checks : Tick → ℕ → ℕ → ℕ → Result (Unit {0})
  bound_checks t cash tokens units = do
    throw_if (out_of_range units (tick_units t) (scale_of t) || cash == 0 || tokens == 0)
        (invalid_argument "pm: invalid protected market BUY amounts")
    signed_cash ← product big cash 10000
    bound ← product big tokens (next_finest t units)
    throw_if (not (less signed_cash bound))
        (invalid_argument "pm: protected market BUY exceeds finest tick price bound")

  bounded :
      (t : Tick) (cash tokens units ticks : ℕ)
      → cash ≤ max_u64
      → tokens ≤ max_u64
      → units ≡ ticks * tick_units t
      → bound_checks t cash tokens units ≡ ok tt
      → (0 < cash)
        × (0 < tokens)
        × (tick_units t ≤ units)
        × (units + tick_units t ≤ scale_of t)
        × (cash * 10000 < tokens * next_finest t units)
  unfolding bound_checks
  bounded t cash tokens units ticks hc ht e h =
      let (fine, h1) =
        throw_if-eq-ok (out_of_range units (tick_units t) (scale_of t) || cash == 0 || tokens == 0)
          _ _ h in
      let (in_range, some_cash, some_tokens) =
        checks (out_of_range units (tick_units t) (scale_of t)) cash tokens fine in
      let (_, _, _, room) = in_range-IsProtection t units ticks e in_range in
      let next : next_finest t units ≤ max_u64 =
        small_next t units (omega (arith, scale_small t, room)) in
      let (p, made, n) = product_lem big cash 10000 hc (omega arith) in
      let (q, made', n') = product_lem big tokens (next_finest t units) ht next in
      let last : throw_if (not (less p q)) too_high ≡ ok tt = sym (rw (made, made') refl) ∙ h1 in
      let below = not_thrown (not (less p q)) too_high last in
      (
        some_cash,
        some_tokens,
        at_least units (tick_units t) (scale_of t) in_range,
        room,
        ltb→lt _ _ (sym (less-numbers big p q n n') ∙ is_less (less p q) below),
      )
    where
      too_high : Error
      too_high = invalid_argument "pm: protected market BUY exceeds finest tick price bound"

      at_least : (u i s : ℕ) → out_of_range u i s ≡ false → i ≤ u
      at_least u i s k = ground arith

  -- Amounts that pass as a protected market buy at a price of decimal `dp` are positive, and their exact ratio
  -- is strictly below the next 0.0001 above the protection price, which is the exact price rounded down to a
  -- whole tick and at least one tick: what is signed never permits a fill at a worse price of the finest tick.
  pub validate_protected-bound :
      (t : Tick) (cash tokens : ℕ) (price : Double) (dp : Decimal)
      → cash ≤ max_u64
      → tokens ≤ max_u64
      → decimal dbl price ≡ ok dp
      → validate_protected_market_buy_price dbl big cash tokens price (tick_text t) ≡ ok tt
      → (0 < cash)
        × (0 < tokens)
        × (tick_units t ≤ floored_price t dp)
        × (floored_price t dp + tick_units t ≤ scale_of t)
        × (cash * 10000 < tokens * next_finest t (floored_price t dp))
  unfolding validate_protected_market_buy_price bound_checks
  validate_protected-bound t cash tokens price dp hc ht hp h =
      let (u, hv, h1) = >>=-eq-ok (validate_price dbl price) _ h in
      let same : validate_protected_market_buy_price dbl big cash tokens price (tick_text t)
          ≡ (fits_u64 (whole_units t dp) >>= λ _. bound_checks t cash tokens (floored_price t dp)) =
        rw
          (
            hv,
            config_for-tick_text t,
            protection_units-exact dbl t price dp hp,
            power10_lem (tick_config t).price,
          )
          (elim (Bool-cases (leb (whole_units t dp) max_u64)) [
            | inl small ↦ rw small refl
            | inr over ↦ rw over refl
          ]) in
      let (_, _, ran) =
        >>=-eq-ok (fits_u64 (whole_units t dp))
          (λ _. bound_checks t cash tokens (floored_price t dp)) (sym same ∙ h) in
      bounded t cash tokens (floored_price t dp) (whole_units t dp / tick_units t) hc ht refl ran
