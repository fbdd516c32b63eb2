-- ===== src/Pm/Decimal.antt =====
-- pm/amounts.cpp, lines 41 to 162: decimal texts of doubles and their exact rounding.
pub mod Cutting
pub mod Scaled
pub mod Parse
pub mod Division
use polymarket_cpp.Prelude.{
  ℕ, zero, suc, ◌+◌, ◌-◌, ◌*◌, ◌/◌, ◌%◌, ◌^◌, Bool, true, false, ◌&&◌, ◌||◌, not, Option, none,
  some, List, [], ◌∷◌, ◌++◌, Bytes, length, is_empty, take, drop, replicate, all, ltb, leb, ◌==◌,
  if◌then◌else◌, Result, ok, err, Error, invalid_argument, overflow_error, ◌>>=◌, ℤ, pos, negsuc,
  ◌+ℤ◌, max_u64, from_chars_u64, from_chars_int,
}

pub record Decimal : Type 0 where
  pub digits : Bytes
  pub exponent : ℤ

pub data Rounding : Type 0 where
  down up nearest : Rounding

abbrev pub overflow : Error
overflow = overflow_error "pm: token amount overflow"

abbrev exponent_error : Error
exponent_error = invalid_argument "pm: amount exponent conversion failed"

-- `if (*start == '+') ++start;`
abbrev skip_plus : Bytes → Bytes
skip_plus [] = []
skip_plus (c ∷ cs) = if c == b'+' then cs else c ∷ cs

abbrev add_exponent : Decimal → Option (ℤ × Bytes) → Result Decimal
add_exponent out none = err exponent_error
add_exponent out (some (e, rest)) =
    if is_empty rest then ok (record out { exponent = out.exponent +ℤ e }) else err exponent_error

abbrev add_digit : ℕ → Bool → Decimal → Decimal
add_digit c fraction out = record {
  digits = out.digits ++ c ∷ [];
  exponent = if fraction then out.exponent +ℤ negsuc 0 else out.exponent;
}

-- The loop of `decimal` over the text that `std::to_chars` wrote.
unfoldable pub decimal_chars : Bytes → Bool → Decimal → Result Decimal
decimal_chars [] fraction out = ok out
decimal_chars (c ∷ cs) fraction out =
    let next =
      decimal_chars cs (if c == b'.' then true else fraction)
        (if c == b'.' then out else add_digit c fraction out) in
    if c == b'e' || c == b'E' then add_exponent out (from_chars_int (skip_plus cs)) else next

-- `erase(0, find_first_not_of('0'))`, empty where every digit is a zero.
unfoldable pub strip_zeros : Bytes → Bytes
strip_zeros [] = []
strip_zeros (c ∷ cs) = if c == b'0' then strip_zeros cs else c ∷ cs

-- `find_first_not_of('0', cut) != npos`, of what stands from `cut` on.
abbrev pub any_nonzero : Bytes → Bool
any_nonzero ds = not (all (λ c. c == b'0') ds)

abbrev pub starts_high : Bytes → Bool
starts_high [] = false
starts_high (c ∷ cs) = leb b'5' c

-- Whether the digits that are cut off round the rest up; `k` digits are cut.
abbrev pub increments : Rounding → ℕ → ℕ → Bytes → Bool
increments down k size cut_off = false
increments up k size cut_off = any_nonzero cut_off
increments nearest k size cut_off = leb k size && starts_high cut_off

-- The end of `scaled`: the digits are read, and the increment is added unless it overflows.
abbrev pub finish : Option ℕ → Bool → Result ℕ
finish none increment = err overflow
finish (some units) increment =
    if increment && units == max_u64
    then err overflow
    else ok (units + (if increment then 1 else 0))

-- `cut ? digits.substr(0, cut) : "0"`
abbrev pub kept_digits : ℕ → Bytes → Bytes
kept_digits cut ds = if cut == 0 then b'0' ∷ [] else take cut ds

-- The two branches on the sign of `shift`; `negsuc k` cuts `k + 1` digits.
unfoldable pub shifted : Bytes → ℤ → Rounding → Result ℕ
shifted ds (pos s) rounding =
    if ltb 20 (length ds + s)
    then err overflow
    else finish (from_chars_u64 (ds ++ replicate s b'0')) false
shifted ds (negsuc k) rounding =
    let cut = length ds - suc k in
    finish (from_chars_u64 (kept_digits cut ds))
      (increments rounding (suc k) (length ds) (drop cut ds))

unfoldable pub scaled : Decimal → ℕ → Rounding → Result ℕ
unfolding strip_zeros shifted
scaled d places rounding =
    if is_empty (strip_zeros d.digits)
    then ok 0
    else shifted (strip_zeros d.digits) (d.exponent +ℤ pos places) rounding

unfoldable pub token_units : ℕ → Result ℕ
token_units hundredths =
    if ltb (max_u64 / 10000) hundredths then err overflow else ok (hundredths * 10000)

-- `while (places-- > 0) value *= 10;` for the places of the rounding table.
unfoldable pub power10 : ℕ → ℕ
power10 zero = 1
power10 (suc places) = power10 places * 10

-- Long division on `uint64_t`: one quotient digit for each digit of the numerator.
unfoldable pub divide_loop : Bytes → ℕ → ℕ → Bytes
divide_loop [] denominator remainder = []
divide_loop (digit ∷ rest) denominator remainder =
    let r = (remainder * 10 + (digit - b'0')) % 2 ^ 64 in
    (b'0' + r / denominator) ∷ divide_loop rest denominator (r % denominator)

unfoldable pub divide_down : Bytes → ℕ → Bytes
unfolding divide_loop
divide_down numerator denominator = divide_loop numerator denominator 0
