-- ===== src/Pm/Hex.antt =====
-- pm/keys.cpp, the hexadecimal text of bytes: `to_hex0x`, `from_hex` and `eth_address_from_hex`.
use polymarket_cpp.Prelude.{
  ℕ, ◌+◌, ◌-◌, ◌*◌, ◌/◌, ◌%◌, ◌<◌, ◌≡◌, refl, true, ◌||◌, not, Option, none, some, [], ◌∷◌, Bytes,
  codes, arith, length, drop, starts_with, is_digit, leb, ◌==◌, ◌&&◌, if◌then◌else◌, Result, ok,
  err, invalid_argument, ◌>>=◌, ◌>>◌, throw_if, All,
}

abbrev pub IsByte : ℕ → Type 0
IsByte b = b < 256

-- `digits[n]` of "0123456789abcdef".
abbrev pub hex_digit : ℕ → ℕ
hex_digit n = if leb n 9 then b'0' + n else b'a' + (n - 10)

abbrev pub hex_chars : Bytes → Bytes
hex_chars [] = []
hex_chars (b ∷ bs) = hex_digit (b / 16) ∷ hex_digit (b % 16) ∷ hex_chars bs

unfoldable pub to_hex0x : Bytes → Bytes
to_hex0x bytes = b'0' ∷ b'x' ∷ hex_chars bytes

-- The lambda `nib`; -1 is `none`.
unfoldable pub nib : ℕ → Option ℕ
nib c =
    if is_digit c
    then some (c - b'0')
    else if leb b'a' c && leb c b'f'
    then some (c - b'a' + 10)
    else if leb b'A' c && leb c b'F'
    then some (c - b'A' + 10)
    else none

-- `uint8_t(hi << 4 | lo)`, or the exception.
abbrev pub byte_of : Option ℕ → Option ℕ → Result ℕ
byte_of (some hi) (some lo) = ok (hi * 16 + lo)
byte_of _ _ = err (invalid_argument "from_hex: bad character")

-- The loop of `from_hex`, over a text of even length.
unfoldable pub hex_bytes : Bytes → Result Bytes
unfolding nib
hex_bytes [] = ok []
hex_bytes (c ∷ []) = err (invalid_argument "from_hex: bad character")
hex_bytes (c ∷ d ∷ rest) = do b ← byte_of (nib c) (nib d); bs ← hex_bytes rest; ok (b ∷ bs)

abbrev pub without_prefix : Bytes → Bytes
without_prefix hex =
    if starts_with hex (codes "0x") || starts_with hex (codes "0X") then drop 2 hex else hex

unfoldable pub from_hex : Bytes → Result Bytes
unfolding hex_bytes
from_hex hex =
    let text = without_prefix hex in
    if length text % 2 == 0 then hex_bytes text else err (invalid_argument "from_hex: odd length")

unfoldable pub eth_address_from_hex : Bytes → Result Bytes
unfolding from_hex
eth_address_from_hex hex = do
  b ← from_hex hex
  throw_if (not (length b == 20)) (invalid_argument "EthAddress: need 20 bytes")
  ok b

nib-hex_digit : (n : ℕ) → n < 16 → nib (hex_digit n) ≡ some n
unfolding nib
nib-hex_digit n h = ground arith

pub length-hex_chars : (bs : Bytes) → length (hex_chars bs) ≡ 2 * length bs
length-hex_chars [] = omega arith
length-hex_chars (b ∷ bs) = omega (arith, length-hex_chars bs)

hex_bytes-hex_chars : (bs : Bytes) → All IsByte bs → hex_bytes (hex_chars bs) ≡ ok bs
unfolding hex_bytes
hex_bytes-hex_chars [] h = refl
hex_bytes-hex_chars (b ∷ bs) h =
    let both : b / 16 * 16 + b % 16 ≡ b = omega arith in
    rw
      (
        nib-hex_digit (b / 16) (omega (arith, h.0)),
        nib-hex_digit (b % 16) (omega arith),
        hex_bytes-hex_chars bs h.1,
        both,
      )
      refl

-- Bytes that are written as hexadecimal text are read back from it, and an address from its twenty bytes.
pub from_hex-to_hex0x :
    (bs : Bytes)
    → All IsByte bs
    → (from_hex (to_hex0x bs) ≡ ok bs)
      × (length bs ≡ 20 → eth_address_from_hex (to_hex0x bs) ≡ ok bs)
unfolding from_hex to_hex0x eth_address_from_hex
from_hex-to_hex0x bs h =
    let even : (length (hex_chars bs) % 2 == 0) ≡ true =
      is_even (length (hex_chars bs)) (length bs) (length-hex_chars bs) in
    let read : from_hex (to_hex0x bs) ≡ ok bs = rw even (hex_bytes-hex_chars bs h) in
    (read, λ twenty. rw (even, hex_bytes-hex_chars bs h, twenty) refl)
  where
    is_even : (n m : ℕ) → n ≡ 2 * m → (n % 2 == 0) ≡ true
    is_even n m e = let k : n % 2 ≡ 0 = omega arith in rw k refl
