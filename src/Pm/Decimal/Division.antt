-- ===== src/Pm/Decimal/Division.antt =====
-- `divide_down` is integer division.
use native.Mathlib.Nat.{div-eq_of_lt-le, div-lt_iff_lt-mul, mod-lt, div-add-mod}
use polymarket_cpp.Prelude.{
  ℕ, suc, ◌+◌, ◌-◌, ◌*◌, ◌/◌, ◌%◌, ◌^◌, ◌≤◌, ◌<◌, ◌≡◌, refl, ap, sym, subst, ◌∙◌, [], ◌∷◌, arith,
  Bytes, length, AllDigits, value, value-cons, pow_ten-suc,
}
use polymarket_cpp.Pm.Decimal.{divide_loop, divide_down}

length-divide_loop : (ds : Bytes) (d r : ℕ) → length (divide_loop ds d r) ≡ length ds
unfolding divide_loop
length-divide_loop [] d r = refl
length-divide_loop (c ∷ ds) d r =
    ap suc (length-divide_loop ds d ((r * 10 + (c - b'0')) % 2 ^ 64 % d))

one_digit :
    (n q m d p v w rem : ℕ)
    → d * q + m ≡ n
    → m * p + v ≡ w * d + rem
    → n * p + v ≡ (q * p + w) * d + rem
one_digit n q m d p v w rem e f = rw (← e) (omega (arith, f))

plus_zero : (q p v : ℕ) → (b'0' + q - b'0') * p + v ≡ q * p + v
plus_zero q p v = let e : b'0' + q - b'0' ≡ q = omega arith in rw e

widen : (r c p v : ℕ) {w u : ℕ} → w ≡ 10 * p → u ≡ c * p + v → r * w + u ≡ (r * 10 + c) * p + v
widen r c p v e f = rw (e, f) (omega arith)

-- The remainder of a small denominator does not wrap.
module _ (d : ℕ) (pos_d : 0 < d) (small_d : d * 10 ≤ 2 ^ 64) where
  no_wrap : (r c : ℕ) → r < d → c ≤ 9 → (r * 10 + c) % 2 ^ 64 ≡ r * 10 + c
  no_wrap r c lt le = omega arith

  divide_loop-cons :
      (c : ℕ) (ds : Bytes) (r : ℕ)
      → c - b'0' ≤ 9
      → r < d
      → divide_loop (c ∷ ds) d r
        ≡ (b'0' + (r * 10 + (c - b'0')) / d) ∷ divide_loop ds d ((r * 10 + (c - b'0')) % d)
  unfolding divide_loop
  divide_loop-cons c ds r le lt = rw (no_wrap r (c - b'0') lt le) refl

  digit_bound : (r c : ℕ) → r < d → c ≤ 9 → (r * 10 + c) / d ≤ 9
  digit_bound r c lt le =
      let k : (r * 10 + c) / d < 10 = (div-lt_iff_lt-mul pos_d).1 (omega arith) in omega arith

  divide_loop-AllDigits :
      (ds : Bytes) (r : ℕ) → AllDigits ds → r < d → AllDigits (divide_loop ds d r)
  unfolding divide_loop
  divide_loop-AllDigits [] r h lt = tt
  divide_loop-AllDigits (c ∷ ds) r h lt =
      let n = r * 10 + (c - b'0') in
      let b : n / d ≤ 9 = digit_bound r (c - b'0') lt (omega arith) in
      subst AllDigits (sym (divide_loop-cons c ds r (omega arith) lt))
        (omega arith, divide_loop-AllDigits ds (n % d) h.1 (mod-lt n pos_d))

  -- The quotient's digits times the divisor, with a remainder below it.
  divide_loop_exact :
      (ds : Bytes) (r : ℕ)
      → AllDigits ds
      → r < d
      → (rem : ℕ) × (rem < d)
        × (r * 10 ^ length ds + value ds ≡ value (divide_loop ds d r) * d + rem)
  unfolding divide_loop
  divide_loop_exact [] r h lt = (r, lt, unfold value in omega arith)
  divide_loop_exact (c ∷ ds) r h lt =
      let n = r * 10 + (c - b'0') in
      let (rem, small, e) = divide_loop_exact ds (n % d) h.1 (mod-lt n pos_d) in
      let q = n / d in
      let tail = divide_loop ds d (n % d) in
      let lead : value ((b'0' + q) ∷ tail) ≡ q * 10 ^ length ds + value tail =
        value-cons (b'0' + q) tail ∙ rw (length-divide_loop ds d (n % d)) (plus_zero q _ _) in
      (
        rem,
        small,
        subst (λ qs. r * 10 ^ suc (length ds) + value (c ∷ ds) ≡ value qs * d + rem)
            (sym (divide_loop-cons c ds r (omega arith) lt))
            (widen r (c - b'0') (10 ^ length ds) (value ds) (pow_ten-suc (length ds))
                (value-cons c ds)
              ∙ one_digit n q (n % d) d (10 ^ length ds) (value ds) (value tail) rem
                  (div-add-mod n d) e
              ∙ ap (λ v. v * d + rem) (sym lead)),
      )

pub divide_down-AllDigits :
    (ds : Bytes) (d : ℕ) → AllDigits ds → 0 < d → d * 10 ≤ 2 ^ 64 → AllDigits (divide_down ds d)
unfolding divide_down
divide_down-AllDigits ds d h pos_d small_d = divide_loop-AllDigits d pos_d small_d ds 0 h pos_d

-- The digits of the numerator, divided by hand on 64-bit words, spell the quotient rounded down, for every
-- positive denominator up to a tenth of 2 ^ 64, above which the remainder times ten may wrap.
pub value-divide_down :
    (ds : Bytes) (d : ℕ)
    → AllDigits ds
    → 0 < d
    → d * 10 ≤ 2 ^ 64
    → value (divide_down ds d) ≡ value ds / d
unfolding divide_down
value-divide_down ds d h pos_d small_d =
    let (rem, small, e) = divide_loop_exact d pos_d small_d ds 0 h pos_d in
    let exact : value ds ≡ value (divide_loop ds d 0) * d + rem = omega arith in
    sym (div-eq_of_lt-le d (omega arith) (omega arith))
