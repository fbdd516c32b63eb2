-- ===== src/Pm/Tests.antt =====
-- Runs of the amount functions, and the theorems about them applied to concrete orders.
pub mod Libraries
pub mod Crypto
pub mod Wallets
pub mod Relaying
pub mod Queries
pub mod Feeds
pub mod Requests
pub mod Orders
use polymarket_cpp.Prelude.{
  ℕ, ◌+◌, ◌≤◌, ◌<◌, ◌*◌, ◌/◌, ◌≡◌, refl, false, Bytes, codes, [], Result, ok, ◌>>=◌, ◌>>◌, throw_if,
  pos, negsuc, arith, value, value_from, to_string, from_chars_int, digits_prefix, after_digits,
  from_chars_u64, ◌+ℤ◌,
}
use polymarket_cpp.Pm.Decimal.{
  Decimal, token_units, power10, down, up, nearest, decimal_chars, scaled, divide_down, strip_zeros,
  shifted,
}
use polymarket_cpp.Pm.Decimal.Scaled.{scaled-rounded}
use polymarket_cpp.Pm.Decimal.Cutting.{rounded, fits_u64}
use polymarket_cpp.Pm.Decimal.Parse.{
  Written, IsWritten, minus, print, denoted, start, decimal_chars-print,
}
use polymarket_cpp.Pm.Decimal.Division.{value-divide_down}
use polymarket_cpp.Pm.Amounts.{
  validate_protected_market_buy_price, cash_cents, minimum_tokens, check_ratio, buy, config_for,
  make_config, decimal, validate_price, order_amounts, market_buy_amounts,
  protected_market_buy_amounts, protection_units, out_of_range,
}
use polymarket_cpp.Pm.Amounts.Ticks.{hundredth}
use polymarket_cpp.Pm.Amounts.Limit.{
  shares_of, units_of, limit_amounts, SignedRatio, order_amounts-exact, order_amounts-ratio,
}
use polymarket_cpp.Pm.Amounts.MarketBuy.{
  hundredths_of, capped_amounts, IsCap, market_buy_amounts-exact, market_buy_amounts-IsCap,
}
use polymarket_cpp.Pm.Amounts.Protected.{scale_of, tokens_of, minimum_tokens-exact}
use polymarket_cpp.Pm.Amounts.Signed.{
  protected_result, out_of_range_error, InBand, protected-exact, protected-ratio,
}
use polymarket_cpp.Pm.Amounts.Protection.{whole_units, floored_price}
use polymarket_cpp.Pm.Amounts.Finest.{next_finest, validate_protected-bound}
use polymarket_cpp.Pm.Tests.Libraries.{Fraction, fraction, fractions, numbers}

-- 5.25 shares at 0.37, on the tick 0.01.
abbrev size : Fraction
size = fraction 525 2

abbrev price : Fraction
price = fraction 37 2

abbrev size_decimal : Decimal
size_decimal = record { digits = codes "525"; exponent = negsuc 1 }

abbrev price_decimal : Decimal
price_decimal = record { digits = codes "37"; exponent = negsuc 1 }

size_read : decimal fractions size ≡ ok size_decimal
unfolding decimal decimal_chars to_string from_chars_int ◌+ℤ◌
size_read = refl

price_read : decimal fractions price ≡ ok price_decimal
unfolding decimal decimal_chars to_string from_chars_int ◌+ℤ◌
price_read = refl

price_valid : validate_price fractions price ≡ ok tt
unfolding validate_price
price_valid = refl

cent_config : config_for "0.01" ≡ ok (make_config 2 2 4)
unfolding config_for
cent_config = refl

limit_run : order_amounts fractions numbers buy size price "0.01" ≡ ok (1942500, 5250000)
unfolding order_amounts config_for validate_price decimal decimal_chars to_string from_chars_int
    scaled ◌+ℤ◌ from_chars_u64 token_units
limit_run = refl

market_run : market_buy_amounts fractions numbers size price ≡ ok (1950000, 5250000)
unfolding market_buy_amounts validate_price decimal decimal_chars to_string from_chars_int scaled
    ◌+ℤ◌ from_chars_u64 token_units
market_run = refl

protection_run : protection_units fractions (make_config 2 2 4) price "0.01" ≡ ok (37, 1)
unfolding protection_units decimal decimal_chars to_string value from_chars_int scaled ◌+ℤ◌
    from_chars_u64
protection_run = refl

protected_run :
    protected_market_buy_amounts fractions numbers size price "0.01" ≡ ok (1950000, 5270200)
unfolding protected_market_buy_amounts cash_cents minimum_tokens check_ratio power10 divide_down
    config_for validate_price protection_units decimal decimal_chars to_string value from_chars_int
    scaled ◌+ℤ◌ from_chars_u64 token_units
protected_run = refl

order_amounts-exact_example :
    order_amounts fractions numbers buy size price "0.01"
    ≡ limit_amounts buy
        (make_config 2 2 4)
        (shares_of (make_config 2 2 4) size_decimal)
        (units_of (make_config 2 2 4) price_decimal)
order_amounts-exact_example =
    order_amounts-exact fractions numbers buy size price "0.01" (make_config 2 2 4) size_decimal
      price_decimal cent_config price_valid refl size_read price_read

order_amounts-ratio_example :
    SignedRatio buy
      (make_config 2 2 4)
      (shares_of (make_config 2 2 4) size_decimal)
      (units_of (make_config 2 2 4) price_decimal)
      1942500
      5250000
order_amounts-ratio_example =
    order_amounts-ratio fractions numbers buy size price "0.01" (make_config 2 2 4) size_decimal
      price_decimal cent_config size_read price_read limit_run

market_buy_amounts-exact_example :
    market_buy_amounts fractions numbers size price
    ≡ capped_amounts (hundredths_of size_decimal) price_decimal
market_buy_amounts-exact_example =
    market_buy_amounts-exact fractions numbers size price size_decimal price_decimal price_valid
      size_read price_read

market_buy_amounts-IsCap_example :
    IsCap price_decimal 1950000 5250000 × (5250000 ≡ hundredths_of size_decimal * 10000)
market_buy_amounts-IsCap_example =
    market_buy_amounts-IsCap fractions numbers size price size_decimal price_decimal price_valid
      size_read price_read market_run

protected-exact_example : protected_market_buy_amounts fractions numbers size price "0.01" ≡ (
    fits_u64 (whole_units hundredth price_decimal) >>= λ _.
    throw_if
      (out_of_range (floored_price hundredth price_decimal) 1 (scale_of hundredth))
      out_of_range_error
    >> protected_result hundredth
        (rounded down (value size_decimal.digits) (size_decimal.exponent +ℤ pos 2))
        (floored_price hundredth price_decimal))
protected-exact_example =
    protected-exact fractions numbers hundredth size price size_decimal price_decimal price_valid
      price_read size_read

protected-ratio_example : InBand hundredth (floored_price hundredth price_decimal) 1950000 5270200
protected-ratio_example =
    protected-ratio fractions numbers hundredth size price size_decimal price_decimal price_valid
      price_read size_read protected_run

-- The price of the example floors to 37 cents.
floored : floored_price hundredth price_decimal ≡ 37
unfolding value ◌+ℤ◌
floored = refl

scaled-rounded_example :
    scaled size_decimal 1 nearest
    ≡ fits_u64 (rounded nearest (value size_decimal.digits) (size_decimal.exponent +ℤ pos 1))
scaled-rounded_example = scaled-rounded size_decimal 1 nearest (omega arith)

-- 1.5e-07
abbrev small_number : Written
small_number = record { whole = codes "1"; fraction = codes "5"; exponent = minus (codes "07") }

small_number-IsWritten : IsWritten small_number
unfolding value
small_number-IsWritten = record {
  whole_digits = omega arith;
  fraction_digits = omega arith;
  exponent_digits = (omega arith, (λ e. cc), omega arith);
}

decimal_chars-print_example :
    decimal_chars (print small_number) false start ≡ ok (denoted small_number)
decimal_chars-print_example = decimal_chars-print small_number small_number-IsWritten

value-divide_down_example : value (divide_down (codes "19500") 37) ≡ value (codes "19500") / 37
value-divide_down_example =
    value-divide_down (codes "19500") 37 (omega arith) (omega arith) (omega arith)

checked_run :
    validate_protected_market_buy_price fractions numbers 1950000 5270200 price "0.01" ≡ ok tt
unfolding validate_protected_market_buy_price config_for validate_price protection_units power10
    decimal decimal_chars to_string value from_chars_int scaled ◌+ℤ◌ from_chars_u64
checked_run = refl

validate_protected-bound_example :
    (0 < 1950000)
    × (0 < 5270200)
    × (1 ≤ floored_price hundredth price_decimal)
    × (floored_price hundredth price_decimal + 1 ≤ scale_of hundredth)
    × (1950000 * 10000 < 5270200 * next_finest hundredth (floored_price hundredth price_decimal))
validate_protected-bound_example =
    validate_protected-bound fractions numbers hundredth 1950000 5270200 price price_decimal
      (omega arith) (omega arith) price_read checked_run
