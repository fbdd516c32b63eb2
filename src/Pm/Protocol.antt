-- ===== src/Pm/Protocol.antt =====
-- pm/protocol.cpp: which ledger a market is on, and the identities of conditions and positions.
use polymarket_cpp.Prelude.{
  ℕ, zero, suc, ◌+◌, ◌-◌, ◌/◌, ◌%◌, ◌^◌, Bool, true, false, ◌&&◌, ◌||◌, not, [], ◌∷◌, ◌++◌, Bytes,
  String, codes, length, is_empty, drop, take, all, leb, ◌==◌, bytes_eq, starts_with, is_hex,
  if◌then◌else◌, Result, ok, err, Error, invalid_argument, ◌>>=◌, ◌>>◌, throw_if,
}
use polymarket_cpp.Pm.Hex.{to_hex0x}
use polymarket_cpp.Pm.U256.{U256Library}

-- pm/signing.hpp, `OrderProtocol`: an enumeration that can hold other values than its two names.
pub data OrderProtocol : Type 0 where
  ctf_v2 position_v3 : OrderProtocol
  other_protocol : ℕ → OrderProtocol

abbrev pub unsupported : Error
unsupported = invalid_argument "pm: unsupported market/asset protocol identity"

abbrev pub require : Bool → Result (Unit {0})
require b = throw_if (not b) unsupported

abbrev pub protocol : OrderProtocol → Result (Unit {0})
protocol (other_protocol n) = err unsupported
protocol _ = ok tt

abbrev pub is_v3 : OrderProtocol → Bool
is_v3 position_v3 = true
is_v3 _ = false

unfoldable pub market_protocol : Bytes → Result OrderProtocol
market_protocol version =
    if bytes_eq version (codes "v1")
    then ok ctf_v2
    else if bytes_eq version (codes "v2")
    then ok position_v3
    else err (invalid_argument "pm: missing or unsupported Gamma market version")

abbrev pub lower_letter : ℕ → ℕ
lower_letter c = if leb b'A' c && leb c b'F' then c + 32 else c

abbrev pub lower_text : Bytes → Bytes
lower_text [] = []
lower_text (c ∷ cs) = lower_letter c ∷ lower_text cs

abbrev pub ends_with_00 : Bytes → Bool
ends_with_00 text = bytes_eq (drop (length text - 2) text) (codes "00")

abbrev pub padded : Bytes → Bytes
padded text = if length text == 64 then text ++ codes "00" else text

unfoldable pub canonical_condition : Bytes → OrderProtocol → Result Bytes
canonical_condition value p = do
  protocol p
  require (starts_with value (codes "0x") && (length value == 66 || is_v3 p && length value == 64))
  require (all is_hex (drop 2 value))
  let text = padded (lower_text value)
  if is_v3 p then require (ends_with_00 text) else ok tt
  ok text

-- `asset.be`: the 32 bytes of a number, the highest first.
abbrev pub be_bytes : ℕ → ℕ → Bytes
be_bytes zero n = []
be_bytes (suc k) n = (n / 256 ^ k % 256) ∷ be_bytes k n

abbrev pub byte_at : ℕ → ℕ → ℕ
byte_at i n = n / 256 ^ (31 - i) % 256

module _ (big : U256Library) where
  open big use {U256, number, from_dec, to_dec}

  unfoldable pub position_condition : Bytes → Result Bytes
  unfolding to_hex0x
  position_condition value = do
    require (not (is_empty value) && leb (length value) 78)
    asset ← from_dec value
    let be = be_bytes 32 (number asset)
    require (
        bytes_eq (to_dec asset) value
        && leb 1 (byte_at 0 (number asset))
        && leb (byte_at 0 (number asset)) 3
        && all (λ b. b == 0) (take 8 (drop 19 be))
        && leb (byte_at 31 (number asset)) 1)
    ok (to_hex0x (take 31 be ++ 0 ∷ []))

  unfoldable pub validate_order_asset : Bytes → OrderProtocol → Result (Unit {0})
  unfolding position_condition
  validate_order_asset asset p = do
    protocol p
    require (not (is_empty asset) && leb (length asset) 78)
    n ← from_dec asset
    require (bytes_eq (to_dec n) asset)
    if is_v3 p then (position_condition asset >>= λ condition. ok tt) else ok tt

unfoldable pub balance_asset_type : OrderProtocol → Result String
balance_asset_type p = protocol p >> ok (if is_v3 p then "CONDITIONAL-V2" else "CONDITIONAL")

-- pm/signing.hpp, the deployed contracts.
abbrev pub exchange_v2 : String
exchange_v2 = "0xE111180000d2663C0091e4f400237545B87B996B"

abbrev pub neg_risk_exchange_v2 : String
neg_risk_exchange_v2 = "0xe2222d279d744050d28e00520010520000310F59"

abbrev pub exchange_v3 : String
exchange_v3 = "0xe3333700CA9D93003F00f0f71F8515005F6c00AA"

abbrev position_manager : String
position_manager = "0x006f54F7F9A22E0000CC2ab60031000000aE9Fef"

unfoldable pub outcome_ledger : OrderProtocol → Result String
outcome_ledger p =
    protocol p
    >> ok (if is_v3 p then position_manager else "0x4D97DCd97eC945f40cF65F87097ACe5EA0476045")

unfoldable pub exchange_contract : OrderProtocol → Bool → Result String
exchange_contract p neg_risk =
    protocol p
    >> ok (if is_v3 p then exchange_v3 else if neg_risk then neg_risk_exchange_v2 else exchange_v2)
