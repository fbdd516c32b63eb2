-- ===== src/Pm/Tests/Requests.antt =====
-- The theorems about texts and queries applied to concrete ones.
use polymarket_cpp.Prelude.{
  ◌≡◌, refl, List, [], ◌∷◌, Bytes, codes, length, ok, err, invalid_argument, arith, All, replicate,
  ◌++◌,
}
use polymarket_cpp.Pm.Hex.{to_hex0x, from_hex, eth_address_from_hex, from_hex-to_hex0x}
use polymarket_cpp.Pm.AccountRest.{percent_encode, join_conditions, hex_value}
use polymarket_cpp.Pm.AccountRest.Conditions.{comma_separated}
use polymarket_cpp.Pm.AccountRest.Encoding.{
  between, percent_decode, IsQueryByte, percent_encode-All,
}

abbrev bytes : Bytes
bytes = 0 ∷ 171 ∷ 255 ∷ []

from_hex-to_hex0x_example :
    (from_hex (to_hex0x bytes) ≡ ok bytes)
    × (length bytes ≡ 20 → eth_address_from_hex (to_hex0x bytes) ≡ ok bytes)
from_hex-to_hex0x_example = from_hex-to_hex0x bytes (omega arith)

percent_encode-All_example :
    (percent_decode between (percent_encode (codes "MA==")) ≡ codes "MA==")
    × All IsQueryByte (percent_encode (codes "MA=="))
percent_encode-All_example = percent_encode-All (codes "MA==") (omega arith)

-- The same 32 bytes, with all their digits and, in capitals, without the last two.
abbrev spellings : List Bytes
spellings =
    (codes "0xAB" ++ replicate 60 b'1') ∷ (codes "0xab" ++ replicate 60 b'1' ++ codes "00") ∷ []

spellings_refused :
    join_conditions spellings [] [] ≡ err (invalid_argument "pm: duplicate positions-v2 condition")
unfolding join_conditions hex_value
spellings_refused = refl

abbrev others : List Bytes
others = (codes "0xAB" ++ replicate 62 b'1') ∷ (codes "0xab" ++ replicate 60 b'1') ∷ []

others_accepted : join_conditions others [] [] ≡ ok (comma_separated others)
unfolding join_conditions hex_value
others_accepted = refl
