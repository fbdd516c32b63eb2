-- ===== src/Pm/DepositWallet/InitCode.antt =====
-- The creation code of a deposit wallet is consistent with itself: the size that it gives to CODECOPY is
-- that of the code behind the offset that it gives.
use polymarket_cpp.Prelude.{
  ℕ, ◌+◌, ◌<◌, ◌≡◌, sym, true, false, [], ◌∷◌, ◌++◌, Bytes, arith, length, length-append, take,
  drop, Result, ok, err, codes, String, ok-injective, subst,
}
use polymarket_cpp.Pm.Crypto.{be_value, be_value_from}
use polymarket_cpp.Pm.Keys.{byte_of}
use polymarket_cpp.Pm.Hex.{from_hex}
use polymarket_cpp.Pm.DepositWallet.{
  clone_const1, clone_const2, beacon_const1, beacon_const2, beacon_const3, clone_prefix,
  uups_init_code, beacon_init_code,
}

-- The operand of the PUSH2 that the code starts with, which CODECOPY takes as the size, and the operand of
-- the PUSH1 behind it, the offset.
abbrev pub copied_size : Bytes → ℕ
copied_size code = be_value (take 2 (drop 1 code))

abbrev pub copied_from : Bytes → ℕ
copied_from code = byte_of 6 code

clone_prefix-false :
    (n : ℕ)
    → 0x3D + n < 256
    → clone_prefix false n
      ≡ 0x61 ∷ 0x00 ∷ (0x3D + n) ∷ 0x3D ∷ 0x81 ∷ 0x60 ∷ 0x23 ∷ 0x3D ∷ 0x39 ∷ 0x73 ∷ []
unfolding clone_prefix
clone_prefix-false n h = ground arith

clone_prefix-true :
    (n : ℕ)
    → 0x52 + n < 256
    → clone_prefix true n
      ≡ 0x61 ∷ 0x00 ∷ (0x52 + n) ∷ 0x3D ∷ 0x81 ∷ 0x60 ∷ 0x23 ∷ 0x3D ∷ 0x39 ∷ 0x73 ∷ []
unfolding clone_prefix
clone_prefix-true n h = ground arith

-- A creation code of the shape that both kinds have, with the size m.
abbrev shaped : ℕ → Bytes → Bytes
shaped m rest = 0x61 ∷ 0x00 ∷ m ∷ 0x3D ∷ 0x81 ∷ 0x60 ∷ 0x23 ∷ 0x3D ∷ 0x39 ∷ 0x73 ∷ rest

copied-shaped :
    (m : ℕ) (address rest : Bytes)
    → length address ≡ 20
    → length rest ≡ m + 5
    → copied_from (shaped m (address ++ rest)) + copied_size (shaped m (address ++ rest))
      ≡ length (shaped m (address ++ rest))
unfolding be_value_from
copied-shaped m address rest h k = omega (arith, length-append address rest)

abbrev or_nothing : Result Bytes → Bytes
or_nothing (ok bytes) = bytes
or_nothing (err e) = []

-- The bytes of a constant.
abbrev constant : String → Bytes
unfolding from_hex
constant text = or_nothing (from_hex (codes text))

abbrev Copied : Bytes → Type 0
Copied code = copied_from code + copied_size code ≡ length code

uups-Copied :
    (address arguments : Bytes) {code : Bytes}
    → length address ≡ 20
    → 0x3D + length arguments < 256
    → uups_init_code address arguments ≡ ok code
    → Copied code
unfolding uups_init_code from_hex
uups-Copied address arguments ha short h =
    let n = length arguments in
    let rest = 0x60 ∷ 0x09 ∷ (constant clone_const2 ++ (constant clone_const1 ++ arguments)) in
    subst Copied (ok-injective h) (
      subst (λ p. Copied (p ++ (address ++ rest))) (sym (clone_prefix-false n short))
        (copied-shaped (0x3D + n) address rest ha (omega arith)))

beacon-Copied :
    (address arguments : Bytes) {code : Bytes}
    → length address ≡ 20
    → 0x52 + length arguments < 256
    → beacon_init_code address arguments ≡ ok code
    → Copied code
unfolding beacon_init_code from_hex
beacon-Copied address arguments ha short h =
    let n = length arguments in
    let rest =
      constant beacon_const3 ++ (constant beacon_const2 ++ (constant beacon_const1 ++ arguments)) in
    subst Copied (ok-injective h) (
      subst (λ p. Copied (p ++ (address ++ rest))) (sym (clone_prefix-true n short))
        (copied-shaped (0x52 + n) address rest ha (omega arith)))

-- What the deployed wallet is made of is all of the creation code behind its constructor: for a UUPS
-- wallet, and for a beacon wallet, whose address part has twenty bytes and whose arguments are so short
-- that the size fits in a byte, offset and size of the copy add up to the length of the code.
pub init_code_copied :
    (address arguments : Bytes) {uups beacon : Bytes}
    → length address ≡ 20
    → 0x52 + length arguments < 256
    → uups_init_code address arguments ≡ ok uups
    → beacon_init_code address arguments ≡ ok beacon
    → (copied_from uups + copied_size uups ≡ length uups)
      × (copied_from beacon + copied_size beacon ≡ length beacon)
unfolding uups_init_code beacon_init_code
init_code_copied address arguments ha short hu hb = (
  uups-Copied address arguments ha (omega (arith, short)) hu,
  beacon-Copied address arguments ha short hb,
)
