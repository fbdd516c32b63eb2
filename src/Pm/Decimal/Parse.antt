-- ===== src/Pm/Decimal/Parse.antt =====
-- The texts that `std::to_chars` writes for a nonnegative double, and what `decimal` makes of them.
use polymarket_cpp.Prelude.{
  ℕ, zero, suc, ◌+◌, ◌≤◌, ◌≡◌, ◌≢◌, refl, ap, ◌∙◌, Bool, true, false, [], ◌∷◌, ◌++◌, arith, Bytes,
  length, ok, ℤ, pos, negsuc, ◌+ℤ◌, negated, AllDigits, value, from_chars_int-digits,
  from_chars_int-minus, +ℤ_zero, append-nil, append_assoc,
}
use polymarket_cpp.Pm.Decimal.{Decimal, decimal_chars}

-- The exponent as it is written: none, `e+12` or `e-07`.
pub data Exponent : Type 0 where
  plain : Exponent
  plus minus : Bytes → Exponent

-- A number as it is written: `12`, `0.05`, `1.5e+22`, `5e-07`.
pub record Written : Type 0 where
  pub whole : Bytes
  pub fraction : Bytes
  pub exponent : Exponent

abbrev pub print_exponent : Exponent → Bytes
print_exponent plain = []
print_exponent (plus ds) = b'e' ∷ b'+' ∷ ds
print_exponent (minus ds) = b'e' ∷ b'-' ∷ ds

abbrev pub print_fraction : Bytes → Bytes
print_fraction [] = []
print_fraction (c ∷ cs) = b'.' ∷ c ∷ cs

abbrev pub print : Written → Bytes
print w = w.whole ++ (print_fraction w.fraction ++ print_exponent w.exponent)

-- The digits of an exponent that a double can have.
abbrev pub IsExponent : Exponent → Type 0
IsExponent plain = Unit {0}
IsExponent (plus ds) = AllDigits ds × (ds ≢ []) × (value ds ≤ 9999)
IsExponent (minus ds) = AllDigits ds × (ds ≢ []) × (value ds ≤ 9999)

pub record IsWritten (w : Written) : Type 0 where
  pub whole_digits : AllDigits w.whole
  pub fraction_digits : AllDigits w.fraction
  pub exponent_digits : IsExponent w.exponent

abbrev pub exponent_value : Exponent → ℤ
exponent_value plain = pos 0
exponent_value (plus ds) = pos (value ds)
exponent_value (minus ds) = negated (value ds)

-- The decimal that a text denotes: all its digits, and the place of the point.
abbrev pub denoted : Written → Decimal
denoted w = record {
  digits = w.whole ++ w.fraction;
  exponent = negated (length w.fraction) +ℤ exponent_value w.exponent;
}

abbrev pub start : Decimal
start = record { digits = []; exponent = pos 0 }

digits-decimal_chars :
    (ds rest acc : Bytes)
    → AllDigits ds
    → decimal_chars (ds ++ rest) false (record { digits = acc; exponent = pos 0 })
      ≡ decimal_chars rest false (record { digits = acc ++ ds; exponent = pos 0 })
unfolding decimal_chars
digits-decimal_chars [] rest acc h = rw (append-nil acc)
digits-decimal_chars (c ∷ ds) rest acc h =
    ground
      (arith, digits-decimal_chars ds rest (acc ++ c ∷ []) h.1, append_assoc acc (c ∷ []) ds, h.0)

negated-suc : (n : ℕ) → negated n +ℤ negsuc 0 ≡ negated (suc n)
unfolding ◌+ℤ◌
negated-suc zero = refl
negated-suc (suc n) = ground arith

fraction-decimal_chars :
    (ds rest acc : Bytes) (n : ℕ)
    → AllDigits ds
    → decimal_chars (ds ++ rest) true (record { digits = acc; exponent = negated n })
      ≡ decimal_chars rest true (record { digits = acc ++ ds; exponent = negated (length ds + n) })
unfolding decimal_chars
fraction-decimal_chars [] rest acc n h = rw (append-nil acc) (
    ap (λ m. decimal_chars rest true (record { digits = acc; exponent = negated m })) (omega arith))
fraction-decimal_chars (c ∷ ds) rest acc n h =
    let len : suc (length ds) + n ≡ length ds + suc n = omega arith in
    ground (
      arith,
      fraction-decimal_chars ds rest (acc ++ c ∷ []) (suc n) h.1,
      append_assoc acc (c ∷ []) ds,
      negated-suc n,
      h.0,
      len,
    )

exponent-decimal_chars :
    (e : Exponent) (fraction : Bool) (out : Decimal)
    → IsExponent e
    → decimal_chars (print_exponent e) fraction out
      ≡ ok (record out { exponent = out.exponent +ℤ exponent_value e })
unfolding decimal_chars
exponent-decimal_chars plain fraction out h = rw (+ℤ_zero out.exponent)
exponent-decimal_chars (plus ds) fraction out h = rw (from_chars_int-digits ds h.0 h.1 h.2)
exponent-decimal_chars (minus ds) fraction out h = rw (from_chars_int-minus ds h.0 h.1 h.2)

-- Every text of `std::to_chars` is taken apart without an error, into its digits and its exponent.
pub decimal_chars-print :
    (w : Written) → IsWritten w → decimal_chars (print w) false start ≡ ok (denoted w)
unfolding decimal_chars
decimal_chars-print w h =
    digits-decimal_chars w.whole _ [] h.whole_digits ∙ point w.fraction h.fraction_digits
  where
    point :
        (fraction : Bytes)
        → AllDigits fraction
        → decimal_chars
            (print_fraction fraction ++ print_exponent w.exponent)
            false
            (record { digits = w.whole; exponent = pos 0 })
          ≡ ok (denoted (record w { fraction = fraction }))
    point [] d =
        exponent-decimal_chars w.exponent false (record { digits = w.whole; exponent = pos 0 })
          h.exponent_digits
        ∙ rw (append-nil w.whole)
    point (c ∷ cs) d =
        fraction-decimal_chars (c ∷ cs) (print_exponent w.exponent) w.whole 0 d
        ∙ ap
            (λ m.
              decimal_chars (print_exponent w.exponent) true
                (record { digits = w.whole ++ c ∷ cs; exponent = negated m }))
            no_more
        ∙ exponent-decimal_chars w.exponent true
            (record { digits = w.whole ++ c ∷ cs; exponent = negated (length (c ∷ cs)) })
            h.exponent_digits
      where
        no_more : length (c ∷ cs) + 0 ≡ length (c ∷ cs)
        no_more = omega arith
