-- ===== src/Pm/Signing/Binding.antt =====
-- What an order's digest binds: the order, and the exchange that it is for.
use polymarket_cpp.Prelude.{
  ◌≡◌, refl, sym, ap, subst, drop, ◌∙◌, ◌⊎◌, inl, inr, Bool, ◌∷◌, ◌++◌, Bytes, length, codes, ok,
  ok-injective, >>=-eq-ok,
}
use polymarket_cpp.Pm.U256.{U256Library}
use polymarket_cpp.Pm.Crypto.{CryptoLibrary, address_word, domain_type}
use polymarket_cpp.Pm.Keys.{byte_of}
use polymarket_cpp.Pm.Protocol.{OrderProtocol}
use polymarket_cpp.Pm.Signing.{
  OrderV2, order_struct_hash_v2, order_digest, exchange_domain, chain_id,
}
use polymarket_cpp.Pm.Signing.Words.{append_split, address_word-injective, Collision, keccak-cases}
use polymarket_cpp.Pm.Signing.Encodings.{
  IsOrder, SameOrder, SameExchange, struct_hash-cases, IsFor, exchange_domain-IsFor,
  exchange_domain-size, supported, mark-SameExchange,
}

module _ (big : U256Library) (crypto : CryptoLibrary big) where
  domain-SameExchange :
      (p : OrderProtocol) (m : Bool) (q : OrderProtocol) (n : Bool) {d : Bytes}
      → exchange_domain big crypto p m ≡ ok d
      → exchange_domain big crypto q n ≡ ok d
      → SameExchange p m q n ⊎ Collision big crypto
  unfolding IsFor
  domain-SameExchange p m q n {d} h k =
      let (a, v, ma, da) = exchange_domain-IsFor big crypto p m h in
      let (b, w, mb, db) = exchange_domain-IsFor big crypto q n k in
      let name = codes "Polymarket CTF Exchange" in
      elim (keccak-cases big crypto (domain_text v a) (domain_text w b) (
        sym (crypto.domain_separator_lem name v chain_id a)
        ∙ sym da
        ∙ db
        ∙ crypto.domain_separator_lem name w chain_id b)) [
          | inr c ↦ inr c
          | inl same ↦ inl (
              mark-SameExchange p m q n
                (sym ma ∙ ap (byte_of 0) (address_of_text v a w b same) ∙ mb)
                (supported big crypto p m h))
        ]
    where
      domain_text : Bytes → Bytes → Bytes
      domain_text version contract =
          crypto.keccak256 domain_type
          ++ (crypto.keccak256 (codes "Polymarket CTF Exchange")
              ++ (crypto.keccak256 version ++ (crypto.word chain_id ++ address_word contract)))

      hashes : (x y : Bytes) → length (crypto.keccak256 x) ≡ length (crypto.keccak256 y)
      hashes x y = crypto.length-keccak256 x ∙ sym (crypto.length-keccak256 y)

      address_of_text : (v a w b : Bytes) → domain_text v a ≡ domain_text w b → a ≡ b
      address_of_text v a w b e =
          let name = codes "Polymarket CTF Exchange" in
          let ha = crypto.keccak256 v ++ (crypto.word chain_id ++ address_word a) in
          let hb = crypto.keccak256 w ++ (crypto.word chain_id ++ address_word b) in
          let t = crypto.keccak256 domain_type in
          let k = crypto.keccak256 name in
          let e1 = (append_split t t (k ++ ha) (k ++ hb) refl e).1 in
          let e2 = (append_split k k ha hb refl e1).1 in
          let e3 =
            (append_split (crypto.keccak256 v) (crypto.keccak256 w)
              (crypto.word chain_id ++ address_word a) (crypto.word chain_id ++ address_word b)
              (hashes v w) e2).1 in
          let e4 =
            (append_split (crypto.word chain_id) (crypto.word chain_id) (address_word a)
              (address_word b) refl e3).1 in
          address_word-injective a b e4

  -- Two orders of the same digest are equal in every member and are for the same exchange contract, or two
  -- different texts with the same keccak256 hash are at hand.
  pub order_digest-SameOrder :
      (o : OrderV2 big) (p : OrderProtocol) (m : Bool) (o' : OrderV2 big) (q : OrderProtocol)
      (n : Bool) {digest : Bytes}
      → IsOrder o
      → IsOrder o'
      → order_digest big crypto o p m ≡ ok digest
      → order_digest big crypto o' q n ≡ ok digest
      → (SameOrder o o' × SameExchange p m q n) ⊎ Collision big crypto
  unfolding order_digest
  order_digest-SameOrder o p m o' q n {digest} ho ho' h k =
      let (d, hd, hx) = >>=-eq-ok (exchange_domain big crypto p m) _ h in
      let (e, ke, kx) = >>=-eq-ok (exchange_domain big crypto q n) _ k in
      let x = order_struct_hash_v2 big crypto o in
      let y = order_struct_hash_v2 big crypto o' in
      elim (keccak-cases big crypto (0x19 ∷ 0x01 ∷ (d ++ x)) (0x19 ∷ 0x01 ∷ (e ++ y)) (
        sym (crypto.typed_digest_lem d x)
        ∙ ok-injective (hx ∙ sym kx)
        ∙ crypto.typed_digest_lem e y)) [
          | inr c ↦ inr c
          | inl same ↦ both d e hd ke (
              append_split d e x y (domain_size p m hd ∙ sym (domain_size q n ke))
                (ap (drop 2) same))
        ]
    where
      domain_size :
          (p : OrderProtocol) (m : Bool) {d : Bytes}
          → exchange_domain big crypto p m ≡ ok d
          → length d ≡ 32
      domain_size p m h = exchange_domain-size big crypto p m h

      both :
          (d e : Bytes)
          → exchange_domain big crypto p m ≡ ok d
          → exchange_domain big crypto q n ≡ ok e
          → (d ≡ e) × (order_struct_hash_v2 big crypto o ≡ order_struct_hash_v2 big crypto o')
          → (SameOrder o o' × SameExchange p m q n) ⊎ Collision big crypto
      both d e hd ke s = elim (struct_hash-cases big crypto o o' ho ho' s.1) [
        | inr c ↦ inr c
        | inl same ↦
            elim (domain-SameExchange p m q n hd
              (subst (λ t. exchange_domain big crypto q n ≡ ok t) (sym s.0) ke)) [
                | inr c ↦ inr c
                | inl exchange_same ↦ inl (same, exchange_same)
              ]
      ]
