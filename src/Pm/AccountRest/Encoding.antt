-- ===== src/Pm/AccountRest/Encoding.antt =====
-- What the query values look like on the wire.
use polymarket_cpp.Prelude.{
  ℕ, ◌+◌, ◌-◌, ◌*◌, ◌/◌, ◌%◌, ◌≤◌, ◌<◌, ◌≡◌, refl, ap, true, false, [], ◌∷◌, Bytes, arith, leb,
  ◌==◌, if◌then◌else◌, Bool-cases, inl, inr, All,
}
use polymarket_cpp.Pm.Hex.{IsByte}
use polymarket_cpp.Pm.AccountRest.{is_unreserved, upper_hex_digit, percent_encode}

-- RFC 3986 decoding, as an automaton: between characters, behind a percent sign, behind one digit.
pub data Place : Type 0 where
  between behind_percent : Place
  behind_digit : ℕ → Place

abbrev pub digit_value : ℕ → ℕ
digit_value c = if leb c b'9' then c - b'0' else c - b'A' + 10

abbrev pub percent_decode : Place → Bytes → Bytes
percent_decode _ [] = []
percent_decode between (c ∷ cs) =
    if c == b'%' then percent_decode behind_percent cs else c ∷ percent_decode between cs
percent_decode behind_percent (c ∷ cs) = percent_decode (behind_digit (digit_value c)) cs
percent_decode (behind_digit h) (c ∷ cs) = (h * 16 + digit_value c) ∷ percent_decode between cs

-- Printable, and with no meaning of its own in a query.
abbrev pub IsQueryByte : ℕ → Type 0
IsQueryByte c =
    (33 ≤ c)
    × (c ≤ 126)
    × ((c ≡ b'&') → ⊥)
    × ((c ≡ b'=') → ⊥)
    × ((c ≡ b'?') → ⊥)
    × ((c ≡ b'#') → ⊥)
    × ((c ≡ b'+') → ⊥)

unreserved-IsQueryByte : (c : ℕ) → is_unreserved c ≡ true → IsQueryByte c
unreserved-IsQueryByte c h = ground arith

hex_digit-IsQueryByte : (n : ℕ) → n < 16 → IsQueryByte (upper_hex_digit n)
hex_digit-IsQueryByte n h = ground arith

digit_value-upper_hex_digit : (n : ℕ) → n < 16 → digit_value (upper_hex_digit n) ≡ n
digit_value-upper_hex_digit n h = ground arith

-- The value of a query, encoded, is decoded to itself, and all its characters are printable and none of
-- & = ? # + is among them, so that it can neither end early nor add a parameter.
pub percent_encode-All :
    (value : Bytes)
    → All IsByte value
    → (percent_decode between (percent_encode value) ≡ value)
      × All IsQueryByte (percent_encode value)
unfolding percent_encode
percent_encode-All [] h = (refl, tt)
percent_encode-All (c ∷ cs) h =
    let (back, fine) = percent_encode-All cs h.1 in
    elim (Bool-cases (is_unreserved c)) [
      | inl e ↦
          let other : (c == b'%') ≡ false = not_percent c e in
          rw (e, other) (ap (◌∷◌ c) back, (unreserved-IsQueryByte c e, fine))
      | inr e ↦
          let both : c / 16 * 16 + c % 16 ≡ c = omega arith in
          let high : c / 16 < 16 = omega (arith, h.0) in
          let low : c % 16 < 16 = omega arith in
          rw e (
            rw
                (
                  digit_value-upper_hex_digit (c / 16) high,
                  digit_value-upper_hex_digit (c % 16) low,
                  both,
                )
                (ap (◌∷◌ c) back),
            (
              percent,
              (hex_digit-IsQueryByte (c / 16) high, (hex_digit-IsQueryByte (c % 16) low, fine)),
            ),
          )
    ]
  where
    not_percent : (c : ℕ) → is_unreserved c ≡ true → (c == b'%') ≡ false
    not_percent c e = ground arith

    percent : IsQueryByte b'%'
    percent = ground arith
