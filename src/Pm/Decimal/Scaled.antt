-- ===== src/Pm/Decimal/Scaled.antt =====
-- `scaled` against the exact rounding of a number.
use native.Mathlib.Nat.{div-eq_of_lt, mul-le-mul_right}
use polymarket_cpp.Prelude.{
  ℕ, zero, suc, ◌+◌, ◌-◌, ◌*◌, ◌^◌, ◌≤◌, ◌<◌, ◌≡◌, refl, ap, sym, ◌∙◌, Bool, true, false, none,
  some, [], ◌∷◌, ◌++◌, arith, Bytes, length, is_empty, take, drop, replicate, ltb, leb, ◌==◌,
  if◌then◌else◌, Bool-cases, inl, inr, ℤ, pos, negsuc, ◌+ℤ◌, max_u64, from_chars_u64,
  from_chars_u64-digits, AllDigits, IsDigit, All-append, value, value-append, value-replicate,
  replicate-AllDigits, pow_pos, pow_ten-suc, pow_add, pow_mono, length-replicate, length-drop,
  take-append-drop,
}
use polymarket_cpp.Pm.Decimal.{
  Decimal, Rounding, down, up, nearest, strip_zeros, increments, finish, kept_digits, shifted,
  scaled,
}
use polymarket_cpp.Pm.Decimal.Cutting.{
  rounded, fits_u64, value-strip_zeros, strip_zeros-AllDigits, IsStripped, strip_zeros-IsStripped,
  value-ge, rounded-cut, rounded_all_cut,
}

finish-fits :
    (n : ℕ) (inc : Bool)
    → finish (if leb n max_u64 then some n else none) inc ≡ fits_u64 (n + (if inc then 1 else 0))
finish-fits n inc = ground arith

take-AllDigits : (n : ℕ) (ds : Bytes) → AllDigits ds → AllDigits (take n ds)
take-AllDigits zero ds d = tt
take-AllDigits (suc n) [] d = tt
take-AllDigits (suc n) (c ∷ ds) d = (d.0, take-AllDigits n ds d.1)

drop-AllDigits : (n : ℕ) (ds : Bytes) → AllDigits ds → AllDigits (drop n ds)
drop-AllDigits zero ds d = d
drop-AllDigits (suc n) [] d = tt
drop-AllDigits (suc n) (c ∷ ds) d = drop-AllDigits n ds d.1

-- The kept digits are read as the number that they spell, and none kept as zero.
from_chars-kept_digits :
    (cut : ℕ) (ds : Bytes)
    → AllDigits ds
    → cut ≤ length ds
    → from_chars_u64 (kept_digits cut ds)
      ≡ (if leb (value (take cut ds)) max_u64 then some (value (take cut ds)) else none)
from_chars-kept_digits zero ds d le = unfold from_chars_u64 value in refl
from_chars-kept_digits (suc cut) [] d le = absurd (omega arith)
from_chars-kept_digits (suc cut) (c ∷ ds) d le =
    let some_kept : (suc cut == 0) ≡ false = ground arith in
    rw some_kept (
      from_chars_u64-digits (take (suc cut) (c ∷ ds)) (take-AllDigits (suc cut) (c ∷ ds) d)
        (λ e. cc))

value-take-drop :
    (n : ℕ) (ds : Bytes)
    → value ds ≡ value (take n ds) * 10 ^ length (drop n ds) + value (drop n ds)
value-take-drop n ds = ap value (sym (take-append-drop n ds)) ∙ value-append (take n ds) (drop n ds)

-- The kept digits and the increment make up the rounding, however many digits are cut.
cut_rounds :
    (r : Rounding) (k cut : ℕ) (ds : Bytes)
    → AllDigits ds
    → cut ≡ length ds - suc k
    → rounded r (value ds) (negsuc k)
      ≡ value (take cut ds) + (if increments r (suc k) (length ds) (drop cut ds) then 1 else 0)
cut_rounds r k cut ds d e = elim (Bool-cases (leb (suc k) (length ds))) [
  | inl enough ↦
      let le : suc k ≤ length ds = ground arith in
      let len : length (drop cut ds) ≡ suc k = omega (arith, length-drop cut ds) in
      ap (λ m. rounded r m (negsuc k))
        (value-take-drop cut ds ∙ ap (λ m. value (take cut ds) * 10 ^ m + value (drop cut ds)) len)
      ∙ rounded-cut r k (value (take cut ds)) (length ds) (drop cut ds) (drop-AllDigits cut ds d)
          len le
  | inr few ↦ all_cut cut (ground arith)
]
  where
    all_cut :
        (cut : ℕ)
        → (cut ≡ 0) × (length ds < suc k)
        → rounded r (value ds) (negsuc k)
          ≡ value (take cut ds) + (if increments r (suc k) (length ds) (drop cut ds) then 1 else 0)
    all_cut zero (_, lt) = rounded_all_cut r k ds d lt ∙ unfold value in refl
    all_cut (suc cut) (z, lt) = absurd (omega arith)

shifted-negsuc :
    (r : Rounding) (k : ℕ) (ds : Bytes)
    → AllDigits ds
    → shifted ds (negsuc k) r ≡ fits_u64 (rounded r (value ds) (negsuc k))
unfolding shifted
shifted-negsuc r k ds d =
    let cut = length ds - suc k in
    rw
      (
        from_chars-kept_digits cut ds d (omega arith),
        finish-fits (value (take cut ds)) (increments r (suc k) (length ds) (drop cut ds)),
      )
      (ap fits_u64 (sym (cut_rounds r k cut ds d refl)))

shifted-pos :
    (r : Rounding) (s : ℕ) (c : ℕ) (cs : Bytes)
    → AllDigits (c ∷ cs)
    → IsStripped (c ∷ cs)
    → shifted (c ∷ cs) (pos s) r ≡ fits_u64 (value (c ∷ cs) * 10 ^ s)
unfolding shifted
shifted-pos r s c cs d lead = elim (Bool-cases (ltb 20 (length (c ∷ cs) + s))) [
  | inl long ↦
      let k : 20 ≤ length cs + s = ground arith in
      let e : leb (value (c ∷ cs) * 10 ^ s) max_u64 ≡ false = too_large k in rw (long, e)
  | inr short ↦
      rw
        (
          short,
          from_chars_u64-digits (c ∷ cs ++ replicate s b'0')
              (All-append IsDigit (c ∷ cs) (replicate s b'0') d (replicate-AllDigits s)) (λ e. cc),
          appended,
          finish-fits (value (c ∷ cs) * 10 ^ s) false,
        )
        (ap fits_u64 (omega arith))
]
  where
    appended : value (c ∷ cs ++ replicate s b'0') ≡ value (c ∷ cs) * 10 ^ s
    appended =
        value-append (c ∷ cs) (replicate s b'0')
        ∙ rw (length-replicate {A = ℕ} s b'0', value-replicate s) (omega arith)

    too_large : 20 ≤ length cs + s → leb (value (c ∷ cs) * 10 ^ s) max_u64 ≡ false
    too_large k =
        let lead_bound : 10 ^ length cs * 10 ^ s ≤ value (c ∷ cs) * 10 ^ s =
          mul-le-mul_right _ (value-ge c cs d.0 lead) in
        let large : 10 ^ 20 ≤ 10 ^ (length cs + s) = pow_mono 20 (length cs + s) k in
        let over : max_u64 < value (c ∷ cs) * 10 ^ s = omega (arith, pow_add (length cs) s) in
        ground arith

shifted-rounded :
    (r : Rounding) (shift : ℤ) (ds : Bytes)
    → AllDigits ds
    → IsStripped ds
    → shifted ds shift r ≡ fits_u64 (rounded r (value ds) shift)
shifted-rounded r (pos s) [] d lead = absurd lead
shifted-rounded r (pos s) (c ∷ cs) d lead = shifted-pos r s c cs d lead
shifted-rounded r (negsuc k) ds d lead = shifted-negsuc r k ds d

rounded-zero : (r : Rounding) (shift : ℤ) → rounded r 0 shift ≡ 0
rounded-zero r (pos s) = omega arith
rounded-zero down (negsuc k) = div-eq_of_lt (pow_pos (suc k))
rounded-zero up (negsuc k) = div-eq_of_lt (omega (arith, pow_pos (suc k)))
rounded-zero nearest (negsuc k) = div-eq_of_lt (omega (arith, pow_ten-suc k, pow_pos k))

empty_value : (ds : Bytes) → is_empty (strip_zeros ds) ≡ true → value ds ≡ 0
empty_value ds e = sym (value-strip_zeros ds) ∙ none_left (strip_zeros ds) e
  where
    none_left : (xs : Bytes) → is_empty xs ≡ true → value xs ≡ 0
    none_left [] e = unfold value in refl
    none_left (x ∷ xs) e = cc

-- `scaled` is the rounding of the decimal's exact value at the wanted places, and throws exactly
-- where that integer does not fit 64 bits.
pub scaled-rounded :
    (d : Decimal) (places : ℕ) (r : Rounding)
    → AllDigits d.digits
    → scaled d places r ≡ fits_u64 (rounded r (value d.digits) (d.exponent +ℤ pos places))
unfolding scaled
scaled-rounded d places r h = elim (Bool-cases (is_empty (strip_zeros d.digits))) [
  | inl e ↦
      let zero_value : value d.digits ≡ 0 = empty_value d.digits e in
      rw e (
        ap fits_u64 (
          sym (
            ap (λ v. rounded r v (d.exponent +ℤ pos places)) zero_value
            ∙ rounded-zero r (d.exponent +ℤ pos places))))
  | inr e ↦ rw e (
      shifted-rounded r (d.exponent +ℤ pos places) (strip_zeros d.digits)
        (strip_zeros-AllDigits d.digits h) (strip_zeros-IsStripped d.digits e)
      ∙ ap (λ v. fits_u64 (rounded r v (d.exponent +ℤ pos places))) (value-strip_zeros d.digits))
]
