-- ===== src/Prelude/Digits.antt =====
-- Decimal text: the number that digits spell, `std::to_string` and `std::from_chars`.
use Prim.Native.Nat.{ℕ, zero, suc, ◌+◌, ◌-◌, ◌*◌, ◌/◌, ◌%◌, ◌^◌, ◌≤◌, ◌<◌}
use mathlib.Core.Path.{◌≡◌, refl, ◌∙◌}
use mathlib.Core.Logic.{inl, inr, ◌≢◌}
use mathlib.Core.Bool.{false}
use mathlib.Core.Option.{Option, none, some}
use mathlib.Core.List.{[], ◌∷◌, ◌++◌}
use native.Mathlib.Nat.{pow-suc, zero-add, suc-add, mul-le-mul_right}
use native.Mathlib.Omega.{arith}
use polymarket_cpp.Prelude.Tests.{leb, le→leb, ◌==◌, if◌then◌else◌, Bool-cases}
use polymarket_cpp.Prelude.Lists.{length, is_empty, replicate, All}
use polymarket_cpp.Prelude.Text.{Bytes, is_digit}
use polymarket_cpp.Prelude.Int.{ℤ, pos, negsuc}

abbrev pub max_u64 : ℕ
max_u64 = 18446744073709551615

abbrev pub IsDigit : ℕ → Type 0
IsDigit c = (b'0' ≤ c) × (c ≤ b'9')

abbrev pub AllDigits : Bytes → Type 0
AllDigits = All IsDigit

-- The number that the digits spell behind `n`.
unfoldable pub value_from : ℕ → Bytes → ℕ
value_from n [] = n
value_from n (c ∷ cs) = value_from (n * 10 + (c - b'0')) cs

unfoldable pub value : Bytes → ℕ
unfolding value_from
value = value_from 0

emit : ℕ → ℕ → Bytes → Bytes
emit zero n out = out
emit (suc fuel) n out =
    let rest = emit fuel (n / 10) ((b'0' + n % 10) ∷ out) in
    if n / 10 == 0 then (b'0' + n % 10) ∷ out else rest

-- `std::to_string` of an unsigned number.
unfoldable pub to_string : ℕ → Bytes
unfolding emit
to_string n = emit (suc n) n []

unfoldable pub digits_prefix : Bytes → Bytes
digits_prefix [] = []
digits_prefix (c ∷ cs) = if is_digit c then c ∷ digits_prefix cs else []

unfoldable pub after_digits : Bytes → Bytes
after_digits [] = []
after_digits (c ∷ cs) = if is_digit c then after_digits cs else c ∷ cs

abbrev in_range : Bytes → ℕ → Option ℕ
in_range ds bound =
    if is_empty ds then none else if leb (value ds) bound then some (value ds) else none

-- `std::from_chars` into `uint64_t`: `none` is an `ec` that is set.
unfoldable pub from_chars_u64 : Bytes → Option ℕ
unfolding digits_prefix value
from_chars_u64 text = in_range (digits_prefix text) max_u64

abbrev pub negated : ℕ → ℤ
negated zero = pos 0
negated (suc n) = negsuc n

abbrev with_rest : Option ℕ → (ℕ → ℤ) → Bytes → Option (ℤ × Bytes)
with_rest none sign rest = none
with_rest (some n) sign rest = some (sign n, rest)

-- `std::from_chars` into `int`, with what stands behind the number.
unfoldable pub from_chars_int : Bytes → Option (ℤ × Bytes)
unfolding digits_prefix after_digits value
from_chars_int [] = none
from_chars_int (c ∷ cs) =
    if c == b'-'
    then with_rest (in_range (digits_prefix cs) 2147483648) negated (after_digits cs)
    else with_rest (in_range (digits_prefix (c ∷ cs)) 2147483647) pos (after_digits (c ∷ cs))

pub pow_pos : (n : ℕ) → 0 < 10 ^ n
pow_pos zero = omega arith
pow_pos (suc n) = rw pow-suc (omega (arith, pow_pos n))

pub pow_ten-suc : (n : ℕ) → 10 ^ suc n ≡ 10 * 10 ^ n
pow_ten-suc n = rw pow-suc (omega arith)

pub pow_add : (a b : ℕ) → 10 ^ (a + b) ≡ 10 ^ a * 10 ^ b
pow_add zero b = rw zero-add (omega arith)
pow_add (suc a) b = rw (suc-add a b, pow_ten-suc (a + b), pow_ten-suc a, pow_add a b) (omega arith)

pub pow_mono : (a b : ℕ) → a ≤ b → 10 ^ a ≤ 10 ^ b
pow_mono zero b h = pow_pos b
pow_mono (suc a) zero h = elim h [ ]
pow_mono (suc a) (suc b) h = omega (arith, pow_ten-suc a, pow_ten-suc b, pow_mono a b (omega arith))

shift_step :
    (n d p v : ℕ) {q a b : ℕ}
    → q ≡ 10 * p
    → a ≡ (n * 10 + d) * p + v
    → b ≡ (0 * 10 + d) * p + v
    → a ≡ n * q + b
shift_step n d p v e f g = rw (e, f, g) (omega arith)

-- Digits behind a number shift it.
pub value_from-split : (n : ℕ) (ds : Bytes) → value_from n ds ≡ n * 10 ^ length ds + value ds
unfolding value
value_from-split n [] = omega arith
value_from-split n (c ∷ ds) =
    shift_step n (c - b'0') (10 ^ length ds) (value ds) (pow_ten-suc (length ds))
      (value_from-split (n * 10 + (c - b'0')) ds) (value_from-split (0 * 10 + (c - b'0')) ds)

value_from-append :
    (n : ℕ) (xs ys : Bytes) → value_from n (xs ++ ys) ≡ value_from (value_from n xs) ys
unfolding value_from
value_from-append n [] ys = refl
value_from-append n (c ∷ xs) ys = value_from-append (n * 10 + (c - b'0')) xs ys

pub value-append : (xs ys : Bytes) → value (xs ++ ys) ≡ value xs * 10 ^ length ys + value ys
unfolding value
value-append xs ys = value_from-append 0 xs ys ∙ value_from-split (value_from 0 xs) ys

pub value-cons : (c : ℕ) (ds : Bytes) → value (c ∷ ds) ≡ (c - b'0') * 10 ^ length ds + value ds
unfolding value
value-cons c ds = value_from-split (0 * 10 + (c - b'0')) ds ∙ omega arith

pub value_lt : (ds : Bytes) → AllDigits ds → value ds < 10 ^ length ds
value_lt [] h = unfold value in omega arith
value_lt (c ∷ ds) h =
    let k : (c - b'0') * 10 ^ length ds ≤ 9 * 10 ^ length ds = mul-le-mul_right _ (omega arith) in
    omega (arith, value-cons c ds, value_lt ds h.1, pow_ten-suc (length ds))

pub value-replicate : (k : ℕ) → value (replicate k b'0') ≡ 0
value-replicate zero = unfold value in refl
value-replicate (suc k) = omega (arith, value-cons b'0' (replicate k b'0'), value-replicate k)

pub replicate-AllDigits : (k : ℕ) → AllDigits (replicate k b'0')
replicate-AllDigits zero = tt
replicate-AllDigits (suc k) = (omega arith, replicate-AllDigits k)

pub digits_prefix-digits : (ds : Bytes) → AllDigits ds → digits_prefix ds ≡ ds
unfolding digits_prefix
digits_prefix-digits [] h = refl
digits_prefix-digits (c ∷ ds) h = ground (arith, digits_prefix-digits ds h.1, h.0)

-- A text of digits alone is read whole, unless its value does not fit.
pub from_chars_u64-digits :
    (ds : Bytes)
    → AllDigits ds
    → ds ≢ []
    → from_chars_u64 ds ≡ (if leb (value ds) max_u64 then some (value ds) else none)
unfolding from_chars_u64
from_chars_u64-digits [] h ne = absurd (ne refl)
from_chars_u64-digits (c ∷ ds) h ne = rw (digits_prefix-digits (c ∷ ds) h)

after_digits-digits : (ds : Bytes) → AllDigits ds → after_digits ds ≡ []
unfolding after_digits
after_digits-digits [] h = refl
after_digits-digits (c ∷ ds) h = ground (arith, after_digits-digits ds h.1, h.0)

pub from_chars_int-digits :
    (ds : Bytes)
    → AllDigits ds
    → ds ≢ []
    → value ds ≤ 9999
    → from_chars_int ds ≡ some (pos (value ds), [])
unfolding from_chars_int
from_chars_int-digits [] h ne le = absurd (ne refl)
from_chars_int-digits (c ∷ ds) h ne le =
    let unsigned : (c == b'-') ≡ false = ground (arith, h.0) in
    rw (
      unsigned,
      digits_prefix-digits (c ∷ ds) h,
      after_digits-digits (c ∷ ds) h,
      le→leb (value (c ∷ ds)) 2147483647 (omega arith),
    )

pub from_chars_int-minus :
    (ds : Bytes)
    → AllDigits ds
    → ds ≢ []
    → value ds ≤ 9999
    → from_chars_int (b'-' ∷ ds) ≡ some (negated (value ds), [])
unfolding from_chars_int
from_chars_int-minus [] h ne le = absurd (ne refl)
from_chars_int-minus (c ∷ ds) h ne le = rw (
  digits_prefix-digits (c ∷ ds) h,
  after_digits-digits (c ∷ ds) h,
  le→leb (value (c ∷ ds)) 2147483648 (omega arith),
)

emit-AllDigits : (fuel n : ℕ) (out : Bytes) → AllDigits out → AllDigits (emit fuel n out)
unfolding emit
emit-AllDigits zero n out h = h
emit-AllDigits (suc fuel) n out h = elim (Bool-cases (n / 10 == 0)) [
  | inl e ↦ rw e (omega arith, h)
  | inr e ↦ rw e (emit-AllDigits fuel (n / 10) _ (omega arith, h))
]

-- With the fuel above the number every digit is written.
value-emit : (fuel n : ℕ) (out : Bytes) → n < fuel → value (emit fuel n out) ≡ value_from n out
unfolding emit value
value-emit zero n out h = elim h [ ]
value-emit (suc fuel) n out h = elim (Bool-cases (n / 10 == 0)) [
  | inl e ↦
      let small : n / 10 ≡ 0 = ground arith in
      let last : 0 * 10 + (b'0' + n % 10 - b'0') ≡ n = omega arith in rw (e, value_from, last) refl
  | inr e ↦
      let large : 0 < n / 10 = ground arith in
      let last : n / 10 * 10 + (b'0' + n % 10 - b'0') ≡ n = omega arith in
      rw e (value-emit fuel (n / 10) _ (omega arith) ∙ rw (value_from, last))
]

emit-ne-nil : (fuel n : ℕ) (out : Bytes) → out ≢ [] → emit fuel n out ≢ []
unfolding emit
emit-ne-nil zero n out h = h
emit-ne-nil (suc fuel) n out h = elim (Bool-cases (n / 10 == 0)) [
  | inl e ↦ rw e (λ p. cc)
  | inr e ↦ rw e (emit-ne-nil fuel (n / 10) _ (λ p. cc))
]

pub to_string-AllDigits : (n : ℕ) → AllDigits (to_string n)
unfolding to_string
to_string-AllDigits n = emit-AllDigits (suc n) n [] tt

pub value-to_string : (n : ℕ) → value (to_string n) ≡ n
unfolding to_string value
value-to_string n = value-emit (suc n) n [] (omega arith)

pub to_string-ne-nil : (n : ℕ) → to_string n ≢ []
unfolding to_string emit
to_string-ne-nil n = elim (Bool-cases (n / 10 == 0)) [
  | inl e ↦ rw e (λ p. cc)
  | inr e ↦ rw e (emit-ne-nil n (n / 10) _ (λ p. cc))
]
