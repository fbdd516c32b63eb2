-- ===== src/Pm/Decimal/Cutting.antt =====
-- The digits that `scaled` keeps and those that it drops.
use native.Mathlib.Nat.{div-eq_of_lt-le, mul-le-mul_right, le_trans}
use polymarket_cpp.Prelude.{
  ℕ, suc, ◌+◌, ◌-◌, ◌*◌, ◌/◌, ◌^◌, ◌≤◌, ◌<◌, ◌≡◌, refl, subst, ◌∙◌, true, false, [], ◌∷◌, arith,
  Bytes, length, is_empty, leb, le→leb, ◌==◌, if◌then◌else◌, Bool-cases, inl, inr, ◌⊎◌, Result, ok,
  err, ℤ, pos, negsuc, max_u64, AllDigits, IsDigit, value, value-cons, value_lt, pow_pos,
  pow_ten-suc, pow_mono,
}
use polymarket_cpp.Pm.Decimal.{
  Rounding, down, up, nearest, overflow, strip_zeros, any_nonzero, starts_high, increments,
}

-- The number `v * 10 ^ shift`, rounded to an integer: towards zero, away from it, or to the
-- nearest with halves away from zero.
abbrev pub rounded : Rounding → ℕ → ℤ → ℕ
rounded r v (pos s) = v * 10 ^ s
rounded down v (negsuc k) = v / 10 ^ suc k
rounded up v (negsuc k) = (v + (10 ^ suc k - 1)) / 10 ^ suc k
rounded nearest v (negsuc k) = (v + 5 * 10 ^ k) / 10 ^ suc k

-- The integer if it fits `uint64_t`, and the overflow otherwise.
abbrev pub fits_u64 : ℕ → Result ℕ
fits_u64 n = if leb n max_u64 then ok n else err overflow

pub value-strip_zeros : (ds : Bytes) → value (strip_zeros ds) ≡ value ds
unfolding strip_zeros
value-strip_zeros [] = refl
value-strip_zeros (c ∷ ds) = ground (arith, value-strip_zeros ds, value-cons c ds)

pub strip_zeros-AllDigits : (ds : Bytes) → AllDigits ds → AllDigits (strip_zeros ds)
unfolding strip_zeros
strip_zeros-AllDigits [] h = tt
strip_zeros-AllDigits (c ∷ ds) h = elim (Bool-cases (c == b'0')) [
  | inl e ↦ rw e (strip_zeros-AllDigits ds h.1)
  | inr e ↦ rw e h
]

-- A text that does not begin with a zero, as `strip_zeros` leaves it.
abbrev pub IsStripped : Bytes → Type 0
IsStripped [] = ⊥
IsStripped (c ∷ cs) = (c == b'0') ≡ false

pub strip_zeros-IsStripped :
    (ds : Bytes) → is_empty (strip_zeros ds) ≡ false → IsStripped (strip_zeros ds)
unfolding strip_zeros
strip_zeros-IsStripped [] h = cc
strip_zeros-IsStripped (c ∷ ds) h = elim (Bool-cases (c == b'0')) [
  | inl e ↦ rw e (strip_zeros-IsStripped ds (rw e at h))
  | inr e ↦ rw e e
]

-- The leading digit gives a lower bound.
pub value-ge :
    (c : ℕ) (cs : Bytes) → IsDigit c → IsStripped (c ∷ cs) → 10 ^ length cs ≤ value (c ∷ cs)
value-ge c cs d s =
    let k : 1 * 10 ^ length cs ≤ (c - b'0') * 10 ^ length cs = mul-le-mul_right _ (ground arith) in
    omega (arith, value-cons c cs)

div_of_split : (h b l : ℕ) → l < b → (h * b + l) / b ≡ h
div_of_split h b l lt = div-eq_of_lt-le b (omega arith) (omega arith)

any_nonzero-value :
    (ds : Bytes)
    → AllDigits ds
    → ((any_nonzero ds ≡ false) × (value ds ≡ 0)) ⊎ ((any_nonzero ds ≡ true) × (0 < value ds))
any_nonzero-value [] h = inl (refl, unfold value in refl)
any_nonzero-value (c ∷ ds) h =
    ground
      (arith, any_nonzero-value ds h.1, value-cons c ds, pow_pos (length ds), value-ge c ds h.0)

starts_high-value :
    (c : ℕ) (ds : Bytes)
    → AllDigits (c ∷ ds)
    → ((starts_high (c ∷ ds) ≡ true) × (5 * 10 ^ length ds ≤ value (c ∷ ds)))
      ⊎ ((starts_high (c ∷ ds) ≡ false) × (value (c ∷ ds) < 5 * 10 ^ length ds))
starts_high-value c ds h = elim (Bool-cases (leb b'5' c)) [
  | inl e ↦
      let k : 5 * 10 ^ length ds ≤ (c - b'0') * 10 ^ length ds =
        mul-le-mul_right _ (ground arith) in
      inl (e, omega (arith, value-cons c ds))
  | inr e ↦
      let k : (c - b'0') * 10 ^ length ds ≤ 4 * 10 ^ length ds =
        mul-le-mul_right _ (ground arith) in
      inr (e, omega (arith, value-cons c ds, value_lt ds h.1))
]

module _ (k h l : ℕ) (small : l < 10 ^ suc k) where
  rounded-down : rounded down (h * 10 ^ suc k + l) (negsuc k) ≡ h
  rounded-down = div_of_split h (10 ^ suc k) l small

  rounded_up_exact : l ≡ 0 → rounded up (h * 10 ^ suc k + l) (negsuc k) ≡ h
  rounded_up_exact e = div-eq_of_lt-le (10 ^ suc k) (omega arith) (omega (arith, pow_pos (suc k)))

  rounded_up_more : 0 < l → rounded up (h * 10 ^ suc k + l) (negsuc k) ≡ h + 1
  rounded_up_more e = div-eq_of_lt-le (10 ^ suc k) (omega arith) (omega (arith, pow_pos (suc k)))

  rounded_nearest_low : l < 5 * 10 ^ k → rounded nearest (h * 10 ^ suc k + l) (negsuc k) ≡ h
  rounded_nearest_low e = div-eq_of_lt-le (10 ^ suc k) (omega arith) (omega (arith, pow_ten-suc k))

  rounded_nearest_high : 5 * 10 ^ k ≤ l → rounded nearest (h * 10 ^ suc k + l) (negsuc k) ≡ h + 1
  rounded_nearest_high e =
      div-eq_of_lt-le (10 ^ suc k) (omega (arith, pow_ten-suc k)) (omega (arith, pow_ten-suc k))

-- What the cut-off digits `lo` add, with `k + 1` digits cut from a text that has at least so many.
pub rounded-cut :
    (r : Rounding) (k h n : ℕ) (lo : Bytes)
    → AllDigits lo
    → length lo ≡ suc k
    → suc k ≤ n
    → rounded r (h * 10 ^ suc k + value lo) (negsuc k)
      ≡ h + (if increments r (suc k) n lo then 1 else 0)
rounded-cut down k h n lo d e le =
    rounded-down k h (value lo) (subst (λ m. value lo < 10 ^ m) e (value_lt lo d)) ∙ omega arith
rounded-cut up k h n lo d e le =
    let small = subst (λ m. value lo < 10 ^ m) e (value_lt lo d) in
    elim (any_nonzero-value lo d) [
      | inl (i, z) ↦ rw i (rounded_up_exact k h (value lo) small z ∙ omega arith)
      | inr (i, z) ↦ rw i (rounded_up_more k h (value lo) small z)
    ]
rounded-cut nearest k h n [] d e le = absurd (omega arith)
rounded-cut nearest k h n (c ∷ lo) d e le =
    let v = value (c ∷ lo) in
    let small = subst (λ m. v < 10 ^ m) e (value_lt (c ∷ lo) d) in
    let len : length lo ≡ k = omega arith in
    elim (starts_high-value c lo d) [
      | inl (i, z) ↦
          rw (le→leb (suc k) n le, i)
            (rounded_nearest_high k h v small (subst (λ m. 5 * 10 ^ m ≤ v) len z))
      | inr (i, z) ↦
          rw (le→leb (suc k) n le, i)
            (rounded_nearest_low k h v small (subst (λ m. v < 5 * 10 ^ m) len z) ∙ omega arith)
    ]

-- Every digit is cut, and more.
pub rounded_all_cut :
    (r : Rounding) (k : ℕ) (ds : Bytes)
    → AllDigits ds
    → length ds < suc k
    → rounded r (value ds) (negsuc k) ≡ 0 + (if increments r (suc k) (length ds) ds then 1 else 0)
rounded_all_cut r k ds d lt = go r
  where
    v : ℕ
    v = value ds

    below : v < 10 ^ k
    below = le_trans (value_lt ds d) (pow_mono (length ds) k (omega arith))

    small : v < 10 ^ suc k
    small = omega (arith, pow_ten-suc k, below)

    none_kept : 0 * 10 ^ suc k + v ≡ v
    none_kept = omega arith

    go :
        (r : Rounding)
        → rounded r v (negsuc k) ≡ 0 + (if increments r (suc k) (length ds) ds then 1 else 0)
    go down = subst (λ m. m / 10 ^ suc k ≡ 0) none_kept (rounded-down k 0 v small)
    go up = elim (any_nonzero-value ds d) [
      | inl (i, z) ↦
          rw i (subst (λ m. rounded up m (negsuc k) ≡ 0) none_kept (rounded_up_exact k 0 v small z))
      | inr (i, z) ↦
          rw i (subst (λ m. rounded up m (negsuc k) ≡ 1) none_kept (rounded_up_more k 0 v small z))
    ]
    go nearest =
        let fewer : leb (suc k) (length ds) ≡ false = ground arith in
        rw fewer (
          subst (λ m. rounded nearest m (negsuc k) ≡ 0) none_kept
            (rounded_nearest_low k 0 v small (omega (arith, below))))
