-- ===== src/Pm/Tests/Libraries.antt =====
-- Concrete numbers in the place of the library parameters: a double is a decimal fraction that is
-- written with an exponent, and a U256 is a natural number.
use mathlib.Core.List.{append-nil}
use polymarket_cpp.Prelude.{
  ℕ, zero, suc, ◌+◌, ◌-◌, ◌*◌, ◌^◌, ◌≤◌, ◌<◌, ◌≡◌, refl, sym, ap, ◌∙◌, subst, Bool, true, false,
  String, [], ◌∷◌, Bytes, codes, arith, ltb, leb, le→leb, le→ltb, lt→ltb, ◌==◌, length, drop,
  Result, ok, err, overflow_error, if◌then◌else◌, pos_part, neg_part, negated, zero_+ℤ, value,
  to_string, to_string-AllDigits, value-to_string, to_string-ne-nil,
}
use polymarket_cpp.Pm.Decimal.Parse.{Written, IsWritten, minus, print, denoted}
use polymarket_cpp.Pm.Double.{DoubleLibrary, Denotes}
use polymarket_cpp.Pm.U256.{U256Library, u256_mod}

-- mantissa / 10 ^ places
pub record Fraction : Type 0 where
  pub mantissa : ℕ
  pub places : ℕ

abbrev pub fraction : ℕ → ℕ → Fraction
fraction m k = record { mantissa = m; places = k }

abbrev pub written_of : Fraction → Written
written_of v = record {
  whole = to_string v.mantissa;
  fraction = [];
  exponent = minus (to_string v.places);
}

abbrev pub is_small : Fraction → Bool
is_small v = leb v.places 9999

pub number-IsWritten : (v : Fraction) → is_small v ≡ true → IsWritten (written_of v)
number-IsWritten v h =
    let small : v.places ≤ 9999 = ground arith in
    record {
      whole_digits = to_string-AllDigits v.mantissa;
      fraction_digits = tt;
      exponent_digits = (
        to_string-AllDigits v.places,
        to_string-ne-nil v.places,
        rw (value-to_string v.places) small,
      );
    }

value-denoted : (v : Fraction) → value (denoted (written_of v)).digits ≡ v.mantissa
value-denoted v = rw (append-nil (to_string v.mantissa)) (value-to_string v.mantissa)

denoted_exponent : (v : Fraction) → (denoted (written_of v)).exponent ≡ negated v.places
denoted_exponent v = zero_+ℤ _ ∙ ap negated (value-to_string v.places)

pos_part-negated : (n : ℕ) → pos_part (negated n) ≡ 0
pos_part-negated zero = refl
pos_part-negated (suc n) = refl

neg_part-negated : (n : ℕ) → neg_part (negated n) ≡ n
neg_part-negated zero = refl
neg_part-negated (suc n) = refl

pub fraction-Denotes :
    (v : Fraction) → is_small v ≡ true → Denotes (print (written_of v)) v.mantissa v.places
fraction-Denotes v h = record {
  written = written_of v;
  is_written = number-IsWritten v h;
  printed = refl;
  exact =
      rw (value-denoted v, denoted_exponent v, pos_part-negated v.places, neg_part-negated v.places)
        (ap (λ k. v.mantissa * 10 ^ k) zero_plus);
}
  where
    zero_plus : 0 + v.places ≡ v.places
    zero_plus = omega arith

abbrev pub read_fraction : String → Fraction
read_fraction text = fraction (value (drop 2 (codes text))) (length (drop 2 (codes text)))

pub read_fraction_lem :
    (text : String) (ds : Bytes)
    → codes text ≡ b'0' ∷ b'.' ∷ ds
    → read_fraction text ≡ fraction (value ds) (length ds)
read_fraction_lem text ds h = rw h refl

pub written_small :
    (v : Fraction)
    → ltb (10 ^ v.places) v.mantissa ≡ false
    → value (denoted (written_of v)).digits * 10 ^ pos_part (denoted (written_of v)).exponent
      ≤ 10 ^ neg_part (denoted (written_of v)).exponent
written_small v h =
    let small : v.mantissa ≤ 10 ^ v.places = ground arith in
    rw (value-denoted v, denoted_exponent v, pos_part-negated v.places, neg_part-negated v.places)
      (omega arith)

pub nonzero : (n : ℕ) → 0 < n → (n == 0) ≡ false
nonzero n h = ground arith

pub few : (k : ℕ) → k ≤ 15 → leb k 9999 ≡ true
few k h = le→leb k 9999 (omega arith)

abbrev pub fractions : DoubleLibrary
fractions = record {
  Double = Fraction;
  is_finite = is_small;
  is_negative = λ v. false;
  is_zero = λ v. v.mantissa == 0;
  above_one = λ v. ltb (10 ^ v.places) v.mantissa;
  less = λ v w. ltb (v.mantissa * 10 ^ w.places) (w.mantissa * 10 ^ v.places);
  one_minus = λ v. fraction (10 ^ v.places - v.mantissa) v.places;
  to_chars = λ v. print (written_of v);
  stod = read_fraction;
  quotient = fraction;
  to_chars_written = λ v fin neg nz. (written_of v, number-IsWritten v fin, refl, written_small v);
  stod_fraction = λ text ds h digits short positive.
      subst
        (λ v.
          (is_small v ≡ true)
          × (false ≡ false)
          × ((v.mantissa == 0) ≡ false)
          × Denotes (print (written_of v)) (value ds) (length ds))
        (sym (read_fraction_lem text ds h))
        (
          few (length ds) short,
          refl,
          nonzero (value ds) positive,
          fraction-Denotes (fraction (value ds) (length ds)) (few (length ds) short),
        );
  quotient_exact = λ n places short positive below. (
    few places short,
    refl,
    nonzero n positive,
    le→ltb (10 ^ places) n below,
    fraction-Denotes (fraction n places) (few places short),
  );
}

abbrev pub checked : ℕ → ℕ → Result ℕ
checked u n = if ltb (u * n) u256_mod then ok (u * n) else err (overflow_error "U256 overflow")

pub checked_lem : (u n : ℕ) → u * n < u256_mod → checked u n ≡ ok (u * n)
checked_lem u n h = rw (lt→ltb (u * n) u256_mod h)

abbrev pub read_number : Bytes → Result ℕ
read_number text =
    if ltb (value text) u256_mod then ok (value text) else err (overflow_error "U256 overflow")

pub read_number_lem : (text : Bytes) → value text < u256_mod → read_number text ≡ ok (value text)
read_number_lem text h = rw (lt→ltb (value text) u256_mod h)

abbrev pub numbers : U256Library
numbers = record {
  U256 = ℕ;
  number = λ u. u;
  from_u64 = λ n. n;
  checked_mul_u64 = checked;
  to_dec = to_string;
  from_dec = read_number;
  less = ltb;
  number-from_u64 = λ n h. refl;
  checked_mul_lem = λ u n h. (u * n, checked_lem u n h, refl);
  to_dec_lem = λ u. refl;
  from_dec_lem = λ text digits ne small. (value text, read_number_lem text small, refl);
  less_lem = λ u v. refl;
}
