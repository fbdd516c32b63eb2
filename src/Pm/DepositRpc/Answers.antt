-- ===== src/Pm/DepositRpc/Answers.antt =====
-- What the answers of a node are read as.
use polymarket_cpp.Prelude.{
  ℕ, ◌/◌, ◌%◌, ◌<◌, ◌≡◌, refl, sym, ap, ◌∙◌, Bool, true, false, ◌&&◌, ◌||◌, not, [], ◌∷◌, Bytes,
  arith, length, all, All, ◌==◌, is_hex, ok,
}
use polymarket_cpp.Pm.Crypto.{address_word}
use polymarket_cpp.Pm.Hex.{
  IsByte, hex_digit, hex_chars, length-hex_chars, to_hex0x, eth_address_from_hex, from_hex-to_hex0x,
}
use polymarket_cpp.Pm.DepositRpc.{decode_abi_address, has_contract_code, scan_digits}

-- A byte that is not zero.
abbrev pub any_nonzero : Bytes → Bool
any_nonzero bytes = not (all (λ b. b == 0) bytes)

hex_digit-is_hex : (n : ℕ) → n < 16 → is_hex (hex_digit n) ≡ true
hex_digit-is_hex n h = ground arith

digit_is_zero : (n : ℕ) → n < 16 → (hex_digit n == b'0') ≡ (n == 0)
digit_is_zero n h = ground arith

both_zero : (b : ℕ) → b < 256 → ((b / 16 == 0) && (b % 16 == 0)) ≡ (b == 0)
both_zero b h = ground arith

or_not : (seen x y z : Bool) → (((seen || not x) || not y) || not z) ≡ (seen || not ((x && y) && z))
or_not true x y z = refl
or_not false true true z = refl
or_not false true false z = refl
or_not false false y z = refl

or_false : (b : Bool) → (b || false) ≡ b
or_false true = refl
or_false false = refl

-- Digits of bytes are scanned to whether a byte is not zero.
scan_digits-hex_chars :
    (seen : Bool) (bs : Bytes)
    → All IsByte bs
    → scan_digits seen (hex_chars bs) ≡ ok (seen || any_nonzero bs)
unfolding scan_digits
scan_digits-hex_chars seen [] h = ap ok (sym (or_false seen))
scan_digits-hex_chars seen (b ∷ bs) h =
    let small : b / 16 < 16 = omega (arith, h.0) in
    let small' : b % 16 < 16 = omega arith in
    let ih =
      scan_digits-hex_chars
        ((seen || not (hex_digit (b / 16) == b'0')) || not (hex_digit (b % 16) == b'0')) bs h.1 in
    rw (hex_digit-is_hex (b / 16) small, hex_digit-is_hex (b % 16) small')
      (ih ∙ ap ok (joined small small'))
  where
    joined :
        b / 16 < 16
        → b % 16 < 16
        → (((seen || not (hex_digit (b / 16) == b'0')) || not (hex_digit (b % 16) == b'0'))
            || any_nonzero bs)
          ≡ (seen || any_nonzero (b ∷ bs))
    joined p q =
        rw (digit_is_zero (b / 16) p, digit_is_zero (b % 16) q, ← both_zero b h.0)
          (or_not seen (b / 16 == 0) (b % 16 == 0) (all (λ x. x == 0) bs))

pub has_contract_code-to_hex0x :
    (bs : Bytes) → All IsByte bs → has_contract_code (to_hex0x bs) ≡ ok (any_nonzero bs)
unfolding has_contract_code to_hex0x
has_contract_code-to_hex0x bs h = scan_digits-hex_chars false bs h

-- The hexadecimal text of a twenty-byte address that fills a word.
pub decode_abi_address-word :
    (a : Bytes)
    → All IsByte a
    → length a ≡ 20
    → decode_abi_address (to_hex0x (address_word a)) ≡ ok a
unfolding decode_abi_address to_hex0x
decode_abi_address-word a h twenty =
    let size : length (hex_chars a) ≡ 40 = omega (arith, length-hex_chars a, twenty) in
    let back : eth_address_from_hex (b'0' ∷ b'x' ∷ hex_chars a) ≡ ok a =
      (from_hex-to_hex0x a h).1 twenty in
    rw size back
