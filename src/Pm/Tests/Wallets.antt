-- ===== src/Pm/Tests/Wallets.antt =====
-- The theorems about signing, deposit wallets, the relayer and the public queries applied to concrete values.
use polymarket_cpp.Prelude.{◌≡◌, refl, ◌⊎◌, true, false, Bytes, arith, replicate, ok}
use polymarket_cpp.Pm.Hex.{eth_address_from_hex}
use polymarket_cpp.Pm.Keys.{address, recover_eth_address, sign_digest}
use polymarket_cpp.Pm.Protocol.{ctf_v2, position_v3}
use polymarket_cpp.Pm.Amounts.{buy}
use polymarket_cpp.Pm.Signing.{
  OrderV2, order_digest, order_type_string, order_struct_hash_v2, exchange_domain, sign_order_1271,
}
use polymarket_cpp.Pm.Signing.Binding.{order_digest-SameOrder}
use polymarket_cpp.Pm.Signing.Encodings.{IsOrder, SameOrder, SameExchange}
use polymarket_cpp.Pm.Signing.Words.{Collision}
use polymarket_cpp.Pm.Signing.Wrapped.{unwrap, nested_digest, sign_order_1271-unwrap}
use polymarket_cpp.Pm.Tests.Libraries.{numbers}
use polymarket_cpp.Pm.Tests.Crypto.{toy}

abbrev order : OrderV2 numbers
order = record {
  salt = 42;
  maker = replicate 20 1;
  signer = replicate 20 2;
  token_id = 12345;
  maker_amount = 5000000;
  taker_amount = 10000000;
  side = buy;
  signature_type = 3;
  timestamp_ms = 1700000000000;
  metadata = replicate 32 0;
  builder = replicate 32 9;
}

order-IsOrder : IsOrder order
order-IsOrder = omega arith

digest_run : (d : Bytes) × (order_digest numbers toy order ctf_v2 true ≡ ok d)
unfolding order_digest exchange_domain eth_address_from_hex
digest_run = (_, refl)

order_digest-SameOrder_example :
    (SameOrder order order × SameExchange ctf_v2 true ctf_v2 true) ⊎ Collision numbers toy
order_digest-SameOrder_example =
    order_digest-SameOrder numbers toy order ctf_v2 true order ctf_v2 true {digest = digest_run.0}
      order-IsOrder order-IsOrder digest_run.1 digest_run.1

abbrev key : Bytes
key = replicate 32 5

wrapped_run :
    (sig : Bytes) × (sign_order_1271 numbers toy key order (replicate 20 1) position_v3 false
      ≡ ok sig)
unfolding sign_order_1271 exchange_domain eth_address_from_hex sign_digest
wrapped_run = (_, refl)

sign_order_1271-unwrap_example :
    (inner : Bytes) × (domain : Bytes) × (exchange_domain numbers toy position_v3 false ≡ ok domain)
    × (unwrap wrapped_run.0 ≡ record {
      inner = inner;
      domain = domain;
      contents_hash = order_struct_hash_v2 numbers toy order;
      contents_type = order_type_string;
    })
    × (recover_eth_address numbers toy inner
          (nested_digest numbers toy order (replicate 20 1) domain)
        ≡ ok (address numbers toy key))
sign_order_1271-unwrap_example =
    sign_order_1271-unwrap numbers toy key order (replicate 20 1) position_v3 false wrapped_run.1
