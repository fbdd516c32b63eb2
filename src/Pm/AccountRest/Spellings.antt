-- ===== src/Pm/AccountRest/Spellings.antt =====
-- The spellings of a condition in a positions query, and the 32 bytes that they name.
use polymarket_cpp.Prelude.{
  ℕ, suc, ◌+◌, ◌-◌, ◌*◌, ◌≤◌, ◌<◌, ◌≡◌, refl, sym, ap, ap₂, ◌∙◌, ◌⊎◌, ◌↔◌, inl, inr, Bool, true,
  false, ◌&&◌, ◌||◌, [], ◌∷◌, ◌++◌, Bytes, codes, arith, length, length-append, leb, ◌==◌, drop,
  all, is_hex, if◌then◌else◌, Bool-cases, All,
}
use polymarket_cpp.Pm.Protocol.{lower_letter, lower_text}
use polymarket_cpp.Pm.AccountRest.{hex_value, condition_text, normalized}

abbrev pub IsHexDigit : ℕ → Type 0
IsHexDigit c = ((b'0' ≤ c) × (c ≤ b'9')) ⊎ ((b'a' ≤ c) × (c ≤ b'f')) ⊎ ((b'A' ≤ c) × (c ≤ b'F'))

-- The value of a hexadecimal digit of either case.
abbrev pub hex_digit_value : ℕ → ℕ
hex_digit_value c =
    if leb c b'9' then c - b'0' else if leb c b'F' then c - b'A' + 10 else c - b'a' + 10

-- The number that digits of base 16 go on to, the highest first.
abbrev pub hex_number : ℕ → Bytes → ℕ
hex_number n [] = n
hex_number n (c ∷ cs) = hex_number (n * 16 + hex_digit_value c) cs

-- "0x" and 64 hexadecimal digits, or 62 of them.
abbrev pub IsCondition : Bytes → Type 0
IsCondition c =
    (ds : Bytes) × (c ≡ b'0' ∷ b'x' ∷ ds)
    × All IsHexDigit ds
    × ((length ds ≡ 64) ⊎ (length ds ≡ 62))

-- The 32 bytes that a condition names, as a number; behind 31 bytes the last one is zero.
abbrev pub condition_number : Bytes → ℕ
condition_number c = let n = hex_number 0 (drop 2 c) in if length c == 64 then n * 256 else n

is_hex_iff : (c : ℕ) → (is_hex c ≡ true) ↔ IsHexDigit c
is_hex_iff c = (λ h. ground arith, λ h. ground arith)

all-All : (cs : Bytes) → (all is_hex cs ≡ true) ↔ All IsHexDigit cs
all-All [] = (λ h. tt, λ h. refl)
all-All (c ∷ cs) =
    let (to, from) = all-All cs in
    let (one, back) = is_hex_iff c in
    (
      λ h. let (a, b) = both (is_hex c) (all is_hex cs) h in (one a, to b),
      λ h. ap₂ ◌&&◌ (back h.0) (from h.1),
    )
  where
    both : (a b : Bool) → (a && b) ≡ true → (a ≡ true) × (b ≡ true)
    both a b h = ground arith

-- Equally many digits of the same number are the same digits, but for their case.
hex_number-injective :
    (n m : ℕ) (xs ys : Bytes)
    → length xs ≡ length ys
    → All IsHexDigit xs
    → All IsHexDigit ys
    → hex_number n xs ≡ hex_number m ys
    → (n ≡ m) × (lower_text xs ≡ lower_text ys)
hex_number-injective n m [] [] l h k e = (e, refl)
hex_number-injective n m [] (y ∷ ys) l h k e = absurd (omega arith)
hex_number-injective n m (x ∷ xs) [] l h k e = absurd (omega arith)
hex_number-injective n m (x ∷ xs) (y ∷ ys) l h k e =
    let (same, rest) =
      hex_number-injective (n * 16 + hex_digit_value x) (m * 16 + hex_digit_value y) xs ys
        (omega arith) h.1 k.1 e in
    let (front, digit) = cut n m _ _ (small x h.0) (small y k.0) same in
    (front, ap₂ ◌∷◌ (one x y h.0 k.0 digit) rest)
  where
    small : (c : ℕ) → IsHexDigit c → hex_digit_value c < 16
    small c h' = ground arith

    cut : (a b v w : ℕ) → v < 16 → w < 16 → a * 16 + v ≡ b * 16 + w → (a ≡ b) × (v ≡ w)
    cut a b v w p q s = omega arith

    one :
        (c d : ℕ)
        → IsHexDigit c
        → IsHexDigit d
        → hex_digit_value c ≡ hex_digit_value d
        → lower_letter c ≡ lower_letter d
    one c d p q s = ground arith

hex_number-lower :
    (n : ℕ) (xs : Bytes) → All IsHexDigit xs → hex_number n (lower_text xs) ≡ hex_number n xs
hex_number-lower n [] h = refl
hex_number-lower n (x ∷ xs) h =
    ap (λ v. hex_number (n * 16 + v) (lower_text xs)) (one x h.0)
    ∙ hex_number-lower (n * 16 + hex_digit_value x) xs h.1
  where
    one : (c : ℕ) → IsHexDigit c → hex_digit_value (lower_letter c) ≡ hex_digit_value c
    one c p = ground arith

hex_number-append :
    (n : ℕ) (xs ys : Bytes) → hex_number n (xs ++ ys) ≡ hex_number (hex_number n xs) ys
hex_number-append n [] ys = refl
hex_number-append n (x ∷ xs) ys = hex_number-append (n * 16 + hex_digit_value x) xs ys

lower_text-append : (xs ys : Bytes) → lower_text (xs ++ ys) ≡ lower_text xs ++ lower_text ys
lower_text-append [] ys = refl
lower_text-append (x ∷ xs) ys = ap (◌∷◌ (lower_letter x)) (lower_text-append xs ys)

-- The text as `hex_value` sees it.
HexText : Bytes → ℕ → Type 0
HexText c n = (ds : Bytes) × (c ≡ b'0' ∷ b'x' ∷ ds) × All IsHexDigit ds × (length ds ≡ n)

hex_value_iff : (c : Bytes) (n : ℕ) → (hex_value c n ≡ true) ↔ HexText c n
unfolding hex_value HexText
hex_value_iff [] n = (λ h. absurd (ground arith), λ h. absurd (cc))
hex_value_iff (x ∷ []) n = (λ h. absurd (ground arith), λ h. absurd (cc))
hex_value_iff (x ∷ y ∷ ds) n = (
  λ h.
      let (a, b, c, d) = parts (length ds) n x y (all is_hex ds) h in
      (ds, ap₂ (λ v w. v ∷ w ∷ ds) b c, (all-All ds).0 d, a),
  λ h.
      let (es, e, digits, l) = h in
      ap (λ t. hex_value t n) e ∙ rw ((all-All es).1 digits) (whole (length es) n l),
)
  where
    parts :
        (l n x y : ℕ) (a : Bool)
        → (suc (suc l) == n + 2 && (x == b'0' && (y == b'x' && true)) && a) ≡ true
        → (l ≡ n) × (x ≡ b'0') × (y ≡ b'x') × (a ≡ true)
    parts l n x y a h = ground arith

    whole : (l n : ℕ) → l ≡ n → (suc (suc l) == n + 2 && true && true) ≡ true
    whole l n h = ground arith

pub condition_text_iff : (c : Bytes) → (condition_text c ≡ true) ↔ IsCondition c
unfolding HexText
condition_text_iff c =
    let (long, longer) = hex_value_iff c 64 in
    let (short, shorter) = hex_value_iff c 62 in
    (
      λ h. elim (Bool-cases (hex_value c 64)) [
        | inl e ↦ let (ds, q, a, l) = long e in (ds, q, a, inl l)
        | inr e ↦ let (ds, q, a, l) = short (other _ _ h e) in (ds, q, a, inr l)
      ],
      λ h.
          let (ds, q, a, l) = h in
          elim l [
            | inl k ↦ rw (longer (ds, q, a, k)) refl
            | inr k ↦ first_or _ _ (shorter (ds, q, a, k))
          ],
    )
  where
    other : (a b : Bool) → (a || b) ≡ true → a ≡ false → b ≡ true
    other a b h e = ground arith

    first_or : (a b : Bool) → b ≡ true → (a || b) ≡ true
    first_or a b e = ground arith

-- The 64 digits that a condition stands for.
Digits : Bytes → Type 0
Digits c =
    (fs : Bytes) × (length fs ≡ 64)
    × All IsHexDigit fs
    × (normalized c ≡ b'0' ∷ b'x' ∷ lower_text fs)
    × (condition_number c ≡ hex_number 0 fs)

condition-Digits : (c : Bytes) → IsCondition c → Digits c
unfolding Digits
condition-Digits c (ds, e, digits, inl l) = (ds, l, digits, rw (e, l) refl, rw (e, l) refl)
condition-Digits c (ds, e, digits, inr l) = (
  ds ++ codes "00",
  omega (arith, length-append ds (codes "00")),
  zeros ds digits,
  rw (e, l) (ap (λ v. b'0' ∷ b'x' ∷ v) (sym (lower_text-append ds (codes "00")))),
  rw (e, l, hex_number-append 0 ds (codes "00")) (omega arith),
)
  where
    zeros : (xs : Bytes) → All IsHexDigit xs → All IsHexDigit (xs ++ codes "00")
    zeros [] h = ground arith
    zeros (x ∷ xs) h = (h.0, zeros xs h.1)

-- Two conditions have the same key exactly if they name the same bytes.
pub normalized_iff :
    (c d : Bytes)
    → IsCondition c
    → IsCondition d
    → (normalized c ≡ normalized d) ↔ (condition_number c ≡ condition_number d)
unfolding Digits
normalized_iff c d p q =
    let (xs, l, a, key, number) = condition-Digits c p in
    let (ys, m, b, key', number') = condition-Digits d q in
    (
      λ e.
          let same = ap (drop 2) (sym key ∙ e ∙ key') in
          number
          ∙ sym (hex_number-lower 0 xs a)
          ∙ ap (hex_number 0) same
          ∙ hex_number-lower 0 ys b
          ∙ sym number',
      λ e.
          let (_, same) =
            hex_number-injective 0 0 xs ys (l ∙ sym m) a b (sym number ∙ e ∙ number') in
          key ∙ ap (λ v. b'0' ∷ b'x' ∷ v) same ∙ sym key',
    )
