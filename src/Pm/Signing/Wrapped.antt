-- ===== src/Pm/Signing/Wrapped.antt =====
-- What a verifier finds in a signature that is wrapped for ERC-1271.
use polymarket_cpp.Prelude.{
  ℕ, zero, suc, ◌+◌, ◌-◌, ◌*◌, ◌/◌, ◌%◌, ◌<◌, ◌≡◌, refl, sym, ap, ◌∙◌, Bool, [], ◌∷◌, ◌++◌, Bytes,
  arith, length, length-append, take, drop, ok, ok-injective, >>=-eq-ok,
}
use polymarket_cpp.Pm.U256.{U256Library}
use polymarket_cpp.Pm.Crypto.{CryptoLibrary, be_value, be_value_from}
use polymarket_cpp.Pm.Keys.{
  sign_digest, recover_eth_address, address, sign_digest-recover, take_first,
}
use polymarket_cpp.Pm.Protocol.{OrderProtocol}
use polymarket_cpp.Pm.Signing.{
  OrderV2, order_type_string, order_struct_hash_v2, exchange_domain, sign_order_1271,
  typed_data_sign_encoding,
}
use polymarket_cpp.Pm.Signing.Encodings.{exchange_domain-size}

pub record Wrapped : Type 0 where
  pub inner : Bytes
  pub domain : Bytes
  pub contents_hash : Bytes
  pub contents_type : Bytes

-- How a contract takes a wrapped signature apart, from its end: the last two bytes are the length of the
-- type, before it stand the type, the hash and the domain, and the rest is the signature inside.
abbrev unwrap_at : Bytes → ℕ → ℕ → Wrapped
unwrap_at sig size inner_size = record {
  inner = take inner_size sig;
  domain = take 32 (drop inner_size sig);
  contents_hash = take 32 (drop (inner_size + 32) sig);
  contents_type = take size (drop (inner_size + 64) sig);
}

unfoldable pub unwrap : Bytes → Wrapped
unfolding be_value_from
unwrap sig =
    let size = be_value (drop (length sig - 2) sig) in unwrap_at sig size (length sig - (size + 66))

drop_past : (xs ys : Bytes) (m n : ℕ) → n ≡ length xs + m → drop n (xs ++ ys) ≡ drop m ys
drop_past [] ys m n h = let e : n ≡ m = omega arith in rw e refl
drop_past (x ∷ xs) ys m zero h = absurd (omega arith)
drop_past (x ∷ xs) ys m (suc n) h = drop_past xs ys m n (omega arith)

-- The size of the type, in two bytes.
abbrev size_bytes : ℕ → Bytes
size_bytes n = (n / 256 % 256) ∷ (n % 256) ∷ []

module _ (inner domain hash type : Bytes) (hi : length inner ≡ 65) (hd : length domain ≡ 32)
    (hh : length hash ≡ 32) (ht : length type < 65536) where
  abbrev after_hash : Bytes
  after_hash = type ++ size_bytes (length type)

  abbrev after_domain : Bytes
  after_domain = hash ++ after_hash

  abbrev after_inner : Bytes
  after_inner = domain ++ after_domain

  abbrev sealed : Bytes
  sealed = inner ++ after_inner

  length-sealed : length sealed ≡ length type + 131
  length-sealed = omega (
    arith,
    hi,
    hd,
    hh,
    length-append inner after_inner,
    length-append domain after_domain,
    length-append hash after_hash,
    length-append type (size_bytes (length type)),
  )

  tail_of : drop (length sealed - 2) sealed ≡ size_bytes (length type)
  tail_of =
      drop_past inner after_inner (length type + 64) (length sealed - 2)
        (omega (arith, length-sealed, hi))
      ∙ drop_past domain after_domain (length type + 32) (length type + 64) (omega (arith, hd))
      ∙ drop_past hash after_hash (length type) (length type + 32) (omega (arith, hh))
      ∙ drop_past type (size_bytes (length type)) 0 (length type) (omega arith)

  unwrap-sealed :
      unwrap sealed
      ≡ record { inner = inner; domain = domain; contents_hash = hash; contents_type = type }
  unfolding unwrap be_value_from
  unwrap-sealed =
      let read : (0 * 256 + length type / 256 % 256) * 256 + length type % 256 ≡ length type =
        omega arith in
      let start : length sealed - (length type + 66) ≡ 65 = omega (arith, length-sealed) in
      rw (tail_of, read, start)
        (λ i. record {
          inner = take_first inner after_inner 65 hi i;
          domain =
              (ap (take 32) (drop_past inner after_inner 0 65 (omega (arith, hi)))
                  ∙ take_first domain after_domain 32 hd)
                i;
          contents_hash =
              (ap (take 32) (
                    drop_past inner after_inner 32 97 (omega (arith, hi))
                    ∙ drop_past domain after_domain 0 32 (omega (arith, hd)))
                  ∙ take_first hash after_hash 32 hh)
                i;
          contents_type =
              (ap (take (length type)) (
                    drop_past inner after_inner 64 129 (omega (arith, hi))
                    ∙ drop_past domain after_domain 32 64 (omega (arith, hd))
                    ∙ drop_past hash after_hash 0 32 (omega (arith, hh)))
                  ∙ take_first type (size_bytes (length type)) (length type) refl)
                i;
        })

module _ (big : U256Library) (crypto : CryptoLibrary big) where
  -- The digest that the owner of a wallet signs for an order.
  abbrev pub nested_digest : OrderV2 big → Bytes → Bytes → Bytes
  nested_digest o wallet domain = crypto.typed_digest domain (
      crypto.keccak256
        (typed_data_sign_encoding big crypto (order_struct_hash_v2 big crypto o) wallet))

  -- A wrapped signature that was made is taken apart, from its end, into a signature, the domain of the
  -- exchange, the struct hash of the order and the type of orders; and the signature inside recovers, for
  -- the nested digest, to the address of the owner's key.
  pub sign_order_1271-unwrap :
      (key : Bytes) (o : OrderV2 big) (wallet : Bytes) (p : OrderProtocol) (n : Bool) {sig : Bytes}
      → sign_order_1271 big crypto key o wallet p n ≡ ok sig
      → (inner : Bytes) × (domain : Bytes) × (exchange_domain big crypto p n ≡ ok domain)
        × (unwrap sig ≡ record {
          inner = inner;
          domain = domain;
          contents_hash = order_struct_hash_v2 big crypto o;
          contents_type = order_type_string;
        })
        × (recover_eth_address big crypto inner (nested_digest o wallet domain)
            ≡ ok (address big crypto key))
  unfolding sign_order_1271 order_struct_hash_v2
  sign_order_1271-unwrap key o wallet p n {sig} h =
      let (domain, hd, hx) = >>=-eq-ok (exchange_domain big crypto p n) _ h in
      let (inner, hs, hw) =
        >>=-eq-ok (sign_digest big crypto key (nested_digest o wallet domain)) _ hx in
      let signed = sign_digest-recover big crypto key (nested_digest o wallet domain) hs in
      let apart =
        unwrap-sealed inner domain (order_struct_hash_v2 big crypto o) order_type_string signed.0
          (exchange_domain-size big crypto p n hd) (struct_hash_size o) (omega arith) in
      (inner, domain, hd, ap unwrap (sym (ok-injective hw)) ∙ apart, signed.1)
    where
      struct_hash_size : (o : OrderV2 big) → length (order_struct_hash_v2 big crypto o) ≡ 32
      struct_hash_size o = crypto.length-keccak256 _
