-- ===== src/Pm/Clob/Says.antt =====
-- What a prepared order is to say, for the arguments of `place_order`.
use polymarket_cpp.Prelude.{
  ◌%◌, ◌&&◌, to_string, str_eq, ℕ, ◌≡◌, refl, sym, ap, subst, Bool, true, false, ◌||◌, Option, none,
  some, Bytes, String, codes, ◌==◌, if◌then◌else◌, Bool-cases, inl, inr, ok, ◌∙◌,
}
use polymarket_cpp.Net.HttpClient.Requests.{Attempt}
use polymarket_cpp.Pm.Double.{DoubleLibrary}
use polymarket_cpp.Pm.U256.{U256Library}
use polymarket_cpp.Pm.Crypto.{CryptoLibrary}
use polymarket_cpp.Pm.Hex.{to_hex0x}
use polymarket_cpp.Pm.Feeds.{ApiCreds}
use polymarket_cpp.Pm.Keys.{address, recover_eth_address, sign_digest-recover}
use polymarket_cpp.Pm.Signing.{
  OrderV2, order_type_string, order_struct_hash_v2, order_digest, exchange_domain, sign_order,
}
use polymarket_cpp.Pm.Signing.Wrapped.{unwrap, nested_digest, sign_order_1271-unwrap}
use polymarket_cpp.Pm.Amounts.{
  Side, buy, sell, other_side, order_amounts, market_buy_amounts, protected_market_buy_amounts,
  validate_protected_market_buy_price, valid_tick_size, snap_price,
}
use polymarket_cpp.Pm.Clob.Session.{PostOrderBody, ClobLibrary, Identity, ClobClient, done, Run}
use polymarket_cpp.Pm.Clob.Queries.{get_tick_size, get_neg_risk}
use polymarket_cpp.Pm.Clob.Orders.{
  is_buy, is_market_buy, PlaceOrderArgs, PreparedOrder, amounts_for, check_amounts, order_of,
  signature_bytes, body_of,
}

abbrev pub side_word : Side → Bytes
side_word buy = codes "BUY"
side_word _ = codes "SELL"

side_word_lem : (s : Side) → (if is_buy s then codes "BUY" else codes "SELL") ≡ side_word s
side_word_lem buy = refl
side_word_lem sell = refl
side_word_lem (other_side k) = refl

-- A buy that is filled at once or not at all.
abbrev pub at_once : String → Bool
at_once order_type = str_eq order_type "FOK" || str_eq order_type "FAK"

abbrev pub fills : Side → Bool → Bool
fills buy now = now
fills _ now = false

fills_lem : (s : Side) (now : Bool) → (is_buy s && now) ≡ fills s now
fills_lem buy now = refl
fills_lem sell now = refl
fills_lem (other_side k) now = refl

-- What is given is taken, and what is not was answered.
abbrev pub From : {A : Type 0} → Option A → (A → Type 0) → A → Type 0
From (some a) P b = b ≡ a
From none P b = P b

abbrev pub Answered : {A : Type 0} → Run A → A → Type 0
Answered ask a = (c : ClobClient) × (d : ClobClient) × (ask c ≡ (d, done a))

module _ (dbl : DoubleLibrary) (big : U256Library) (transport : ℕ → Attempt) (lib : ClobLibrary dbl)
    (crypto : CryptoLibrary big) (self : Identity) where
  -- The signature is by the key of the client: an ERC-1271 wallet finds it inside, for the nested digest, and
  -- anyone else recovers the key's address from it for the digest.
  pub record IsWrapped (args : PlaceOrderArgs dbl) (neg_risk : Bool) (o : OrderV2 big)
      (signature : Bytes) : Type 0 where
    pub inner : Bytes
    pub domain : Bytes
    pub for_exchange : exchange_domain big crypto args.protocol neg_risk ≡ ok domain
    pub apart : unwrap signature ≡ record {
      inner = inner;
      domain = domain;
      contents_hash = order_struct_hash_v2 big crypto o;
      contents_type = order_type_string;
    }
    pub owned :
        recover_eth_address big crypto inner (nested_digest big crypto o self.funder_address domain)
        ≡ ok (address big crypto self.signer)

  abbrev pub Verifies : Bool → PlaceOrderArgs dbl → Bool → OrderV2 big → Bytes → Bytes → Type 0
  Verifies true args neg_risk o digest signature = IsWrapped args neg_risk o signature
  Verifies false args neg_risk o digest signature =
      recover_eth_address big crypto signature digest ≡ ok (address big crypto self.signer)

  -- What the order of the arguments signs, member by member: the wallet that pays, the signer of the
  -- signature type, the token, the side and the amounts of the arguments.
  pub record IsOrderOf (args : PlaceOrderArgs dbl) (o : OrderV2 big) : Type 0 where
    pub maker_signed : o.maker ≡ self.funder_address
    pub signer_signed :
        o.signer ≡ (if self.signature_type == 3 then self.funder_address else self.signer_address)
    pub token_signed : big.from_dec args.token_id ≡ ok o.token_id
    pub side_signed : o.side ≡ args.side
    pub type_signed : o.signature_type ≡ self.signature_type % 256
    pub builder_signed : o.builder ≡ self.builder

  -- What the body writes of the order: the members that are signed, as text, with the arguments' order type and
  -- flags, and the owner of the L2 key.
  pub record IsBodyOf (args : PlaceOrderArgs dbl) (o : OrderV2 big) (signature : Bytes)
      (creds : ApiCreds) (b : PostOrderBody) : Type 0 where
    pub salt : b.order.salt ≡ o.salt
    pub maker : b.order.maker ≡ to_hex0x self.funder_address
    pub signer : b.order.signer ≡ to_hex0x o.signer
    pub token : b.order.token_id ≡ args.token_id
    pub maker_amount : b.order.maker_amount ≡ to_string o.maker_amount
    pub taker_amount : b.order.taker_amount ≡ to_string o.taker_amount
    pub side : b.order.side ≡ side_word args.side
    pub expiration : b.order.expiration ≡ to_string args.expiration_s
    pub timestamp : b.order.timestamp ≡ to_string o.timestamp_ms
    pub signature_type : b.order.signature_type ≡ self.signature_type
    pub signed : b.order.signature ≡ to_hex0x signature
    pub owner : b.owner ≡ creds.api_key
    pub order_type : b.order_type ≡ args.order_type
    pub flags : (b.defer_exec ≡ args.defer_exec) × (b.post_only ≡ args.post_only)

  -- The amounts that the arguments ask for: of a limit order, of a buy that is filled at once, and of one whose
  -- price is protected, which the final check has let through.
  pub data AsksFor (args : PlaceOrderArgs dbl) (tick : String) (price : dbl.Double)
      : ℕ → ℕ → Type 0 where
    limit_order :
        {m t : ℕ}
        → fills args.side (at_once args.order_type) ≡ false
        → order_amounts dbl big args.side args.size price tick ≡ ok (m, t)
        → AsksFor args tick price m t
    market_order :
        {m t : ℕ}
        → fills args.side (at_once args.order_type) ≡ true
        → args.protect_market_buy_price ≡ false
        → market_buy_amounts dbl big args.size price ≡ ok (m, t)
        → AsksFor args tick price m t
    protected_order :
        {m t : ℕ}
        → fills args.side (at_once args.order_type) ≡ true
        → args.protect_market_buy_price ≡ true
        → protected_market_buy_amounts dbl big args.size args.price tick ≡ ok (m, t)
        → validate_protected_market_buy_price dbl big m t args.price tick ≡ ok tt
        → AsksFor args tick price m t

  -- What a prepared order says. Its tick size and risk flag are those of the arguments, or else what the venue
  -- answered for the token; the price is in the tick's range. It is an order with the amounts that the
  -- arguments ask for. Its identifier is the text of the order's digest, its body writes the order and a
  -- signature of it, and the signature verifies for the key of the client.
  pub record Says (args : PlaceOrderArgs dbl) (p : PreparedOrder) : Type 0 where
    pub tick : String
    pub neg_risk : Bool
    pub price : dbl.Double
    pub order : OrderV2 big
    pub digest : Bytes
    pub signature : Bytes
    pub creds : ApiCreds
    pub body : PostOrderBody
    pub tick_from :
        From args.tick_size (Answered (get_tick_size transport dbl lib args.token_id)) tick
    pub risk_from :
        From args.neg_risk (Answered (get_neg_risk transport dbl lib args.token_id)) neg_risk
    pub tick_valid : valid_tick_size tick ≡ true
    pub price_in_range :
        (dbl.less args.price (dbl.stod tick) ≡ false)
        × (dbl.less (dbl.one_minus (dbl.stod tick)) args.price ≡ false)
    pub snapped : snap_price dbl args.price tick ≡ ok price
    pub asked : AsksFor args tick price order.maker_amount order.taker_amount
    pub of_args : IsOrderOf args order
    pub digested : order_digest big crypto order args.protocol neg_risk ≡ ok digest
    pub identified : p.order_id ≡ to_hex0x digest
    pub verifies : Verifies (self.signature_type == 3) args neg_risk order digest signature
    pub body_of_order : IsBodyOf args order signature creds body
    pub written : p.body ≡ lib.write_order body

  pub amounts-AsksFor :
      (args : PlaceOrderArgs dbl) (tick : String) (price : dbl.Double) {m t : ℕ}
      → amounts_for dbl big args tick price ≡ ok (m, t)
      → check_amounts dbl big args tick (m, t) ≡ ok tt
      → AsksFor args tick price m t
  unfolding amounts_for check_amounts
  amounts-AsksFor args tick price h k =
      let same = fills_lem args.side (at_once args.order_type) in
      elim (Bool-cases (is_market_buy dbl big args)) [
        | inr e ↦ limit_order (sym same ∙ e) (rw e at h)
        | inl e ↦ elim (Bool-cases args.protect_market_buy_price) [
          | inr f ↦ market_order (sym same ∙ e) f (rw (e, f) at h)
          | inl f ↦ protected_order (sym same ∙ e) f (rw (e, f) at h) (rw (e, f) at k)
        ]
      ]

  pub signature_bytes-Verifies :
      (args : PlaceOrderArgs dbl) (neg_risk : Bool) (o : OrderV2 big) (digest : Bytes)
      {signature : Bytes}
      → order_digest big crypto o args.protocol neg_risk ≡ ok digest
      → signature_bytes dbl big transport lib crypto self args neg_risk o ≡ ok signature
      → Verifies (self.signature_type == 3) args neg_risk o digest signature
  unfolding signature_bytes sign_order
  signature_bytes-Verifies args neg_risk o digest {signature} hd hs =
      elim (Bool-cases (self.signature_type == 3)) [
        | inl wallet ↦
            let (inner, domain, for_exchange, apart, owned) =
              sign_order_1271-unwrap big crypto self.signer o self.funder_address args.protocol
                neg_risk (rw wallet at hs) in
            subst (λ b. Verifies b args neg_risk o digest signature) (sym wallet)
              (record {
                inner = inner;
                domain = domain;
                for_exchange = for_exchange;
                apart = apart;
                owned = owned;
              })
        | inr plain ↦
            subst (λ b. Verifies b args neg_risk o digest signature) (sym plain)
              (sign_digest-recover big crypto self.signer digest (rw (plain, hd) at hs)).1
      ]

  pub order_of-IsOrderOf :
      (args : PlaceOrderArgs dbl) (c : ClobClient) (amounts : ℕ × ℕ) {token : big.U256}
      → big.from_dec args.token_id ≡ ok token
      → IsOrderOf args (order_of dbl big transport lib crypto self args amounts c token)
  order_of-IsOrderOf args c amounts token = record {
    maker_signed = refl;
    signer_signed = refl;
    token_signed = token;
    side_signed = refl;
    type_signed = refl;
    builder_signed = refl;
  }

  pub body_of-IsBodyOf :
      (args : PlaceOrderArgs dbl) (o : OrderV2 big) (signature : Bytes) (creds : ApiCreds)
      → o.maker ≡ self.funder_address
      → IsBodyOf args o signature creds
          (body_of dbl big transport lib crypto self args o signature creds)
  body_of-IsBodyOf args o signature creds maker = record {
    salt = refl;
    maker = ap to_hex0x maker;
    signer = refl;
    token = refl;
    maker_amount = refl;
    taker_amount = refl;
    side = side_word_lem args.side;
    expiration = refl;
    timestamp = refl;
    signature_type = refl;
    signed = refl;
    owner = refl;
    order_type = refl;
    flags = (refl, refl);
  }
