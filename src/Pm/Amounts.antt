-- ===== src/Pm/Amounts.antt =====
-- pm/amounts.cpp and pm/amounts.hpp: the venue's amount arithmetic. Every result is a pair of
-- maker and taker amounts in units of 1e-6.
pub mod Ticks
pub mod Products
pub mod Limit
pub mod MarketBuy
pub mod Protected
pub mod Protection
pub mod Signed
pub mod Finest
use polymarket_cpp.Prelude.{
  ℕ, ◌+◌, ◌-◌, ◌*◌, ◌/◌, ◌%◌, Bool, true, false, ◌||◌, not, String, List, [], ◌∷◌, Bytes, codes,
  ltb, leb, ◌==◌, if◌then◌else◌, str_eq, Result, ok, err, Error, invalid_argument, ◌>>=◌, ◌>>◌,
  throw_if, is_ok, negated,
}
use polymarket_cpp.Pm.Decimal.{
  Decimal, down, up, nearest, decimal_chars, scaled, token_units, power10, divide_down,
}
use polymarket_cpp.Pm.Decimal.Parse.{start}
use polymarket_cpp.Pm.Double.{DoubleLibrary}
use polymarket_cpp.Pm.U256.{U256Library}
use Prim.Native.String.{◌++◌ as str_append}

-- pm/types.hpp, `Side`: a `uint8_t` enumeration, which can hold other values than its two names.
pub data Side : Type 0 where
  buy sell : Side
  other_side : ℕ → Side

pub record RoundConfig : Type 0 where
  pub price : ℕ
  pub size : ℕ
  pub amount : ℕ

abbrev pub make_config : ℕ → ℕ → ℕ → RoundConfig
make_config price size amount = record { price = price; size = size; amount = amount }

abbrev bad_tick : String → Result RoundConfig
bad_tick tick = err (invalid_argument (str_append "pm: bad tick size: " tick))

-- `config_for` over the table of `rounding_config`.
unfoldable pub config_for : String → Result RoundConfig
config_for tick =
    if str_eq tick "0.1"
    then ok (make_config 1 2 3)
    else if str_eq tick "0.01"
    then ok (make_config 2 2 4)
    else if str_eq tick "0.005"
    then ok (make_config 3 2 5)
    else if str_eq tick "0.0025"
    then ok (make_config 4 2 6)
    else if str_eq tick "0.001"
    then ok (make_config 3 2 5)
    else if str_eq tick "0.0001"
    then ok (make_config 4 2 6)
    else bad_tick tick

unfoldable pub valid_tick_size : String → Bool
unfolding config_for
valid_tick_size tick = is_ok (config_for tick)

abbrev pub check_side : Side → Result (Unit {0})
check_side buy = ok tt
check_side sell = ok tt
check_side (other_side n) = err (invalid_argument "pm: invalid order side")

-- `side == Side::Buy ? pair(cash, tokens) : pair(tokens, cash)`
abbrev pub by_side : Side → ℕ → ℕ → ℕ × ℕ
by_side buy cash tokens = (cash, tokens)
by_side _ cash tokens = (tokens, cash)

-- A decimal from digits and the exponent -k.
abbrev pub over_power : Bytes → ℕ → Decimal
over_power digits k = record { digits = digits; exponent = negated k }

abbrev pub tick_bound_failed : Error
tick_bound_failed = invalid_argument "pm: protected market BUY tick bound failed"

-- `units < increment || units > scale - increment`; the increment is below the scale.
abbrev pub out_of_range : ℕ → ℕ → ℕ → Bool
out_of_range units increment scale = ltb units increment || ltb (scale - increment) units

abbrev pub not_positive : ℕ → ℕ → Bool
not_positive cash tokens = cash == 0 || tokens == 0

module _ (big : U256Library) where
  open big use {U256, from_u64, checked_mul_u64, to_dec, less}

  -- `U256::from_u64(a).checked_mul_u64(b)`
  abbrev pub product : ℕ → ℕ → Result U256
  product a b = checked_mul_u64 (from_u64 a) b

  -- The cash cap of `protected_market_buy_amounts`, in cents.
  unfoldable pub cash_cents : ℕ → ℕ → ℕ → Result ℕ
  cash_cents places shares units = do
    exact ← product shares units
    scaled (over_power (to_dec exact) places) 0 up

  -- The minimum tokens that the cap buys at the protection price.
  unfoldable pub minimum_tokens : ℕ → ℕ → ℕ → ℕ → Result ℕ
  minimum_tokens scale amount cents units = do
    scaled_cents ← product cents scale
    numerator ← checked_mul_u64 scaled_cents (power10 amount)
    scaled (over_power (divide_down (to_dec numerator) (100 * units)) amount) 6 down

  -- The final check on the signed ratio: the protection tick fits, the next tick does not.
  unfoldable pub check_ratio : ℕ → ℕ → ℕ → ℕ → ℕ → Result (Unit {0})
  check_ratio scale cash tokens units increment = do
    signed_cash ← product cash scale
    at_tick ← product tokens units
    throw_if (less signed_cash at_tick) tick_bound_failed
    next_tick ← product tokens (units + increment)
    throw_if (not (less signed_cash next_tick)) tick_bound_failed

module _ (dbl : DoubleLibrary) where
  open dbl use {Double, is_finite, is_negative, is_zero, above_one, to_chars, stod, quotient}

  -- The text of the double, taken apart.
  unfoldable pub decimal : Double → Result Decimal
  decimal v =
      if not (is_finite v) || is_negative v
      then err (invalid_argument "pm: amount must be finite and nonnegative")
      else if is_zero v
      then ok (record { digits = b'0' ∷ []; exponent = negated 0 })
      else decimal_chars (to_chars v) false start

  unfoldable pub validate_price : Double → Result (Unit {0})
  validate_price price =
      throw_if (not (is_finite price) || is_negative price || above_one price)
        (invalid_argument "pm: price must be finite and between zero and one")

  unfoldable pub snap_price : Double → String → Result Double
  snap_price price tick = do
    validate_price price
    rc ← config_for tick
    d ← decimal price
    units ← scaled d rc.price nearest
    ok (quotient units rc.price)

  -- The protection price in units of 10 ^ -price, floored to a whole tick, with the tick.
  unfoldable pub protection_units : RoundConfig → Double → String → Result (ℕ × ℕ)
  protection_units rc price tick = do
    tick_decimal ← decimal (stod tick)
    increment ← scaled tick_decimal rc.price down
    price_decimal ← decimal price
    price_units ← scaled price_decimal rc.price down
    ok (price_units - price_units % increment, increment)

module _ (dbl : DoubleLibrary) (big : U256Library) where
  open dbl use {Double}
  open big use {to_dec, less}

  unfoldable pub order_amounts : Side → Double → Double → String → Result (ℕ × ℕ)
  order_amounts side size price tick = do
    rc ← config_for tick
    validate_price dbl price
    check_side side
    size_decimal ← decimal dbl size
    shares ← scaled size_decimal rc.size down
    price_decimal ← decimal dbl price
    price_units ← scaled price_decimal rc.price nearest
    exact ← product big shares price_units
    cash ← scaled (over_power (to_dec exact) rc.amount) 6 down
    tokens ← token_units shares
    ok (by_side side cash tokens)

  unfoldable pub market_buy_amounts : Double → Double → Result (ℕ × ℕ)
  market_buy_amounts size price = do
    validate_price dbl price
    size_decimal ← decimal dbl size
    shares ← scaled size_decimal 2 down
    tokens ← token_units shares
    p ← decimal dbl price
    coefficient ← scaled (over_power p.digits 0) 0 down
    exact ← product big shares coefficient
    cents ← scaled (record { digits = to_dec exact; exponent = p.exponent }) 0 up
    cash ← token_units cents
    ok (cash, tokens)

  unfoldable pub protected_market_buy_amounts : Double → Double → String → Result (ℕ × ℕ)
  protected_market_buy_amounts size price tick = do
    validate_price dbl price
    rc ← config_for tick
    let scale = power10 rc.price
    (units, increment) ← protection_units dbl rc price tick
    throw_if (out_of_range units increment scale)
        (invalid_argument "pm: protection price out of range for tick size")
    size_decimal ← decimal dbl size
    shares ← scaled size_decimal 2 down
    cents ← cash_cents big rc.price shares units
    cash ← token_units cents
    tokens ← minimum_tokens big scale rc.amount cents units
    throw_if (not_positive cash tokens)
        (invalid_argument "pm: protected market BUY must have positive amounts")
    check_ratio big scale cash tokens units increment
    ok (cash, tokens)

  unfoldable pub validate_protected_market_buy_price : ℕ → ℕ → Double → String → Result (Unit {0})
  validate_protected_market_buy_price cash tokens price tick = do
    validate_price dbl price
    rc ← config_for tick
    let scale = power10 rc.price
    (units, increment) ← protection_units dbl rc price tick
    throw_if (out_of_range units increment scale || cash == 0 || tokens == 0)
        (invalid_argument "pm: invalid protected market BUY amounts")
    let next = units * (10000 / scale) + 1
    signed_cash ← product big cash 10000
    bound ← product big tokens next
    throw_if (not (less signed_cash bound))
        (invalid_argument "pm: protected market BUY exceeds finest tick price bound")
