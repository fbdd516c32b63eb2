-- ===== src/Pm/Signing/Encodings.antt =====
-- What the encoding of an order and that of an exchange domain fix.
use polymarket_cpp.Prelude.{
  ℕ, ◌≤◌, ◌<◌, ◌≡◌, ◌≢◌, refl, sym, ap, ◌∙◌, ◌⊎◌, inl, inr, Bool, true, false, List, [], ◌∷◌, Bytes,
  arith, length, All, codes, max_u64, ok, ok-injective, append_assoc, append-nil,
}
use polymarket_cpp.Pm.U256.{U256Library, u256_mod}
use polymarket_cpp.Pm.Crypto.{CryptoLibrary, address_word}
use polymarket_cpp.Pm.Hex.{eth_address_from_hex}
use polymarket_cpp.Pm.Keys.{byte_of}
use polymarket_cpp.Pm.Protocol.{OrderProtocol, ctf_v2, position_v3, other_protocol}
use polymarket_cpp.Pm.Signing.{
  OrderV2, side_number, order_type_string, order_encoding, order_struct_hash_v2, exchange_domain,
  exchange, chain_id,
}
use polymarket_cpp.Pm.Signing.Words.{
  concat, IsWord, word_at, concat-injective, address_word-injective, address_word-IsWord,
  word-injective, Collision, keccak-cases,
}

-- The ranges of the C++ types of an order's members.
pub record IsOrder {big : U256Library} (o : OrderV2 big) : Type 0 where
  pub salt_fits : o.salt ≤ max_u64
  pub maker_bytes : length o.maker ≡ 20
  pub signer_bytes : length o.signer ≡ 20
  pub token_fits : big.number o.token_id < u256_mod
  pub maker_amount_fits : o.maker_amount ≤ max_u64
  pub taker_amount_fits : o.taker_amount ≤ max_u64
  pub side_fits : side_number o.side < 256
  pub type_fits : o.signature_type < 256
  pub timestamp_fits : o.timestamp_ms ≤ max_u64
  pub metadata_bytes : length o.metadata ≡ 32
  pub builder_bytes : length o.builder ≡ 32

-- Equal in every member, token identities by the number that they stand for.
pub record SameOrder {big : U256Library} (o p : OrderV2 big) : Type 0 where
  pub same_salt : o.salt ≡ p.salt
  pub same_maker : o.maker ≡ p.maker
  pub same_signer : o.signer ≡ p.signer
  pub same_token : big.number o.token_id ≡ big.number p.token_id
  pub same_maker_amount : o.maker_amount ≡ p.maker_amount
  pub same_taker_amount : o.taker_amount ≡ p.taker_amount
  pub same_side : side_number o.side ≡ side_number p.side
  pub same_type : o.signature_type ≡ p.signature_type
  pub same_timestamp : o.timestamp_ms ≡ p.timestamp_ms
  pub same_metadata : o.metadata ≡ p.metadata
  pub same_builder : o.builder ≡ p.builder

-- The exchange contracts that two orders are for are the same.
abbrev pub SameExchange : OrderProtocol → Bool → OrderProtocol → Bool → Type 0
SameExchange position_v3 m position_v3 n = Unit {0}
SameExchange ctf_v2 m ctf_v2 n = m ≡ n
SameExchange _ m _ n = ⊥

-- The first byte of the exchange's address.
abbrev mark : OrderProtocol → Bool → ℕ
mark position_v3 n = 0xe3
mark ctf_v2 true = 0xe2
mark ctf_v2 false = 0xe1
mark (other_protocol k) n = 0

module _ (big : U256Library) (crypto : CryptoLibrary big) where
  abbrev order_words : OrderV2 big → List Bytes
  order_words o =
      crypto.keccak256 order_type_string
      ∷ crypto.word o.salt
      ∷ address_word o.maker
      ∷ address_word o.signer
      ∷ crypto.word (big.number o.token_id)
      ∷ crypto.word o.maker_amount
      ∷ crypto.word o.taker_amount
      ∷ crypto.word (side_number o.side)
      ∷ crypto.word o.signature_type
      ∷ crypto.word o.timestamp_ms
      ∷ o.metadata
      ∷ o.builder
      ∷ []

  order_encoding-words : (o : OrderV2 big) → order_encoding big crypto o ≡ concat (order_words o)
  unfolding order_encoding
  order_encoding-words o = simp (
    crypto.append_word_lem, crypto.append_address_lem, crypto.append_u8_lem, crypto.append_u64_lem,
    crypto.append_u256_lem, append_assoc, append-nil,
  )

  order_words-All : (o : OrderV2 big) → IsOrder o → All IsWord (order_words o)
  order_words-All o h = (
    crypto.length-keccak256 order_type_string,
    (
      crypto.length-word o.salt,
      (
        address_word-IsWord o.maker h.maker_bytes,
        (
          address_word-IsWord o.signer h.signer_bytes,
          (
            crypto.length-word (big.number o.token_id),
            (
              crypto.length-word o.maker_amount,
              (
                crypto.length-word o.taker_amount,
                (
                  crypto.length-word (side_number o.side),
                  (
                    crypto.length-word o.signature_type,
                    (crypto.length-word o.timestamp_ms, (h.metadata_bytes, (h.builder_bytes, tt))),
                  ),
                ),
              ),
            ),
          ),
        ),
      ),
    ),
  )

  u64_word-injective : (m n : ℕ) → m ≤ max_u64 → n ≤ max_u64 → crypto.word m ≡ crypto.word n → m ≡ n
  u64_word-injective m n hm hn e = word-injective big crypto m n (omega arith) (omega arith) e

  words-SameOrder :
      (o p : OrderV2 big) → IsOrder o → IsOrder p → order_words o ≡ order_words p → SameOrder o p
  words-SameOrder o p ho hp e = record {
    same_salt = u64_word-injective o.salt p.salt ho.salt_fits hp.salt_fits (ap (word_at 1) e);
    same_maker = address_word-injective o.maker p.maker (ap (word_at 2) e);
    same_signer = address_word-injective o.signer p.signer (ap (word_at 3) e);
    same_token =
        word-injective big crypto (big.number o.token_id) (big.number p.token_id) ho.token_fits
          hp.token_fits (ap (word_at 4) e);
    same_maker_amount =
        u64_word-injective o.maker_amount p.maker_amount ho.maker_amount_fits hp.maker_amount_fits
          (ap (word_at 5) e);
    same_taker_amount =
        u64_word-injective o.taker_amount p.taker_amount ho.taker_amount_fits hp.taker_amount_fits
          (ap (word_at 6) e);
    same_side =
        word-injective big crypto (side_number o.side) (side_number p.side)
          (omega (arith, ho.side_fits)) (omega (arith, hp.side_fits)) (ap (word_at 7) e);
    same_type =
        word-injective big crypto o.signature_type p.signature_type (omega (arith, ho.type_fits))
          (omega (arith, hp.type_fits)) (ap (word_at 8) e);
    same_timestamp =
        u64_word-injective o.timestamp_ms p.timestamp_ms ho.timestamp_fits hp.timestamp_fits
          (ap (word_at 9) e);
    same_metadata = ap (word_at 10) e;
    same_builder = ap (word_at 11) e;
  }

  -- One struct hash is that of one order, or there is a collision.
  pub struct_hash-cases :
      (o p : OrderV2 big)
      → IsOrder o
      → IsOrder p
      → order_struct_hash_v2 big crypto o ≡ order_struct_hash_v2 big crypto p
      → SameOrder o p ⊎ Collision big crypto
  unfolding order_struct_hash_v2
  struct_hash-cases o p ho hp e =
      elim (keccak-cases big crypto (order_encoding big crypto o) (order_encoding big crypto p) e) [
        | inl same ↦ inl (
            words-SameOrder o p ho hp (
              concat-injective (order_words o) (order_words p) (order_words-All o ho)
                (order_words-All p hp) refl
                (sym (order_encoding-words o) ∙ same ∙ order_encoding-words p)))
        | inr c ↦ inr c
      ]

  -- The exchange that a domain is for.
  unfoldable pub IsFor : OrderProtocol → Bool → Bytes → Type 0
  IsFor p n domain =
      (address : Bytes) × (version : Bytes) × (byte_of 0 address ≡ mark p n)
      × (domain ≡ exchange big crypto version address)

  pub exchange_domain-IsFor :
      (p : OrderProtocol) (n : Bool) {d : Bytes}
      → exchange_domain big crypto p n ≡ ok d
      → IsFor p n d
  unfolding exchange_domain eth_address_from_hex IsFor
  exchange_domain-IsFor position_v3 n h = (_, _, refl, sym (ok-injective h))
  exchange_domain-IsFor ctf_v2 true h = (_, _, refl, sym (ok-injective h))
  exchange_domain-IsFor ctf_v2 false h = (_, _, refl, sym (ok-injective h))
  exchange_domain-IsFor (other_protocol k) n h = cc

  -- A domain has the size of a hash.
  pub exchange_domain-size :
      (p : OrderProtocol) (n : Bool) {d : Bytes}
      → exchange_domain big crypto p n ≡ ok d
      → length d ≡ 32
  unfolding IsFor
  exchange_domain-size p n h =
      let (a, v, m, e) = exchange_domain-IsFor p n h in
      ap length (e ∙ crypto.domain_separator_lem (codes "Polymarket CTF Exchange") v chain_id a)
      ∙ crypto.length-keccak256 _

  pub supported :
      (p : OrderProtocol) (n : Bool) {d : Bytes}
      → exchange_domain big crypto p n ≡ ok d
      → mark p n ≢ 0
  unfolding exchange_domain eth_address_from_hex
  supported position_v3 n h e = omega arith
  supported ctf_v2 true h e = omega arith
  supported ctf_v2 false h e = omega arith
  supported (other_protocol k) n h e = cc

pub mark-SameExchange :
    (p : OrderProtocol) (m : Bool) (q : OrderProtocol) (n : Bool)
    → mark p m ≡ mark q n
    → mark p m ≢ 0
    → SameExchange p m q n
mark-SameExchange position_v3 m position_v3 n e h = tt
mark-SameExchange position_v3 m ctf_v2 true e h = absurd (omega arith)
mark-SameExchange position_v3 m ctf_v2 false e h = absurd (omega arith)
mark-SameExchange position_v3 m (other_protocol k) n e h = absurd (omega arith)
mark-SameExchange ctf_v2 true position_v3 n e h = absurd (omega arith)
mark-SameExchange ctf_v2 false position_v3 n e h = absurd (omega arith)
mark-SameExchange ctf_v2 true ctf_v2 true e h = refl
mark-SameExchange ctf_v2 false ctf_v2 false e h = refl
mark-SameExchange ctf_v2 true ctf_v2 false e h = absurd (omega arith)
mark-SameExchange ctf_v2 false ctf_v2 true e h = absurd (omega arith)
mark-SameExchange ctf_v2 true (other_protocol k) n e h = absurd (omega arith)
mark-SameExchange ctf_v2 false (other_protocol k) n e h = absurd (omega arith)
mark-SameExchange (other_protocol j) m q n e h = absurd (h refl)
