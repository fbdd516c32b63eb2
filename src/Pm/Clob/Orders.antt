-- ===== src/Pm/Clob/Orders.antt =====
-- `prepare_order`, `post_prepared_order` and `place_order`.
use polymarket_cpp.Prelude.{
  ℕ, ◌*◌, Bool, true, false, ◌&&◌, ◌||◌, not, Option, none, some, ◌∷◌, Bytes, String, codes,
  is_empty, length, drop, all, leb, ◌==◌, is_hex, starts_with, str_eq, if◌then◌else◌, Result, ok,
  to_string, replicate, ◌%◌, ◌>>=◌ as bind, invalid_argument,
}
use polymarket_cpp.Net.HttpClient.Requests.{Headers, Attempt}
use polymarket_cpp.Pm.Double.{DoubleLibrary}
use polymarket_cpp.Pm.Crypto.{CryptoLibrary}
use polymarket_cpp.Pm.Hex.{to_hex0x}
use polymarket_cpp.Pm.Signing
use polymarket_cpp.Pm.Signing.{OrderV2, sign_order_1271}
use polymarket_cpp.Pm.U256.{U256Library}
use polymarket_cpp.Pm.Protocol.{OrderProtocol, validate_order_asset}
use polymarket_cpp.Pm.Amounts.{
  Side, buy, valid_tick_size, snap_price, order_amounts, market_buy_amounts,
  protected_market_buy_amounts, validate_protected_market_buy_price,
}
use polymarket_cpp.Pm.Feeds.{ApiCreds}
use polymarket_cpp.Pm.Clob.Session.{
  ClobLibrary, Identity, ClobClient, ClobError, done, failed, PostOrderBody, Run, ◌>>=◌, ◌>>◌,
  return, exception, lift, require_200, http_post_once, ensure_l2_creds, l2_now,
}
use polymarket_cpp.Pm.Clob.Queries.{get_tick_size, get_neg_risk}
use Prim.Native.String.{◌++◌ as str_append}

pub record PlaceOrderArgs (dbl : DoubleLibrary) : Type 0 where
  pub token_id : Bytes
  pub side : Side
  pub price : dbl.Double
  pub size : dbl.Double
  pub order_type : String
  pub post_only : Bool
  pub defer_exec : Bool
  pub expiration_s : ℕ
  pub tick_size : Option String
  pub neg_risk : Option Bool
  pub protocol : OrderProtocol
  pub protect_market_buy_price : Bool

pub record PreparedOrder : Type 0 where
  pub order_id : Bytes
  pub body : Bytes

-- `kBytes32Zero`
abbrev pub bytes32_zero : Bytes
bytes32_zero = b'0' ∷ b'x' ∷ replicate 64 b'0'

abbrev pub is_buy : Side → Bool
is_buy buy = true
is_buy _ = false

abbrev pub given : {A : Type 0} → Option A → Run A → Run A
given (some a) ask = return a
given none ask = ask

unfoldable pub valid_prepared : PreparedOrder → Bool
valid_prepared p =
    length p.order_id == 66
    && starts_with p.order_id (codes "0x")
    && all is_hex (drop 2 p.order_id)
    && not (is_empty p.body)
    && leb (length p.body) (64 * 1024)

module _ (dbl : DoubleLibrary) (big : U256Library) where
  open dbl use {Double, stod, less, one_minus}

  abbrev pub is_market_buy : PlaceOrderArgs dbl → Bool
  is_market_buy args =
      is_buy args.side && (str_eq args.order_type "FOK" || str_eq args.order_type "FAK")

  -- The amounts of an order at a snapped price, with the check of a protected one.
  unfoldable pub amounts_for : PlaceOrderArgs dbl → String → Double → Result (ℕ × ℕ)
  amounts_for args tick price =
      if is_market_buy args
      then if args.protect_market_buy_price
        then protected_market_buy_amounts dbl big args.size args.price tick
        else market_buy_amounts dbl big args.size price
      else order_amounts dbl big args.side args.size price tick

  unfoldable pub check_amounts : PlaceOrderArgs dbl → String → ℕ × ℕ → Result (Unit {0})
  check_amounts args tick (maker, taker) =
      if is_market_buy args && args.protect_market_buy_price
      then validate_protected_market_buy_price dbl big maker taker args.price tick
      else ok tt

  unfoldable pub price_out_of_range : PlaceOrderArgs dbl → String → Bool
  price_out_of_range args tick =
      less args.price (stod tick) || less (one_minus (stod tick)) args.price

  module _ (transport : ℕ → Attempt) (lib : ClobLibrary dbl) (crypto : CryptoLibrary big)
      (self : Identity) where
    -- `generate_salt`
    abbrev pub generate_salt : ℕ → ℕ
    generate_salt tries =
        let ms = lib.clock_ms tries in lib.random_u64 tries % (if ms == 0 then 1 else ms)

    abbrev pub order_of : PlaceOrderArgs dbl → ℕ × ℕ → ClobClient → big.U256 → OrderV2 big
    order_of args (maker, taker) c token = record {
      salt = generate_salt c.http.tries;
      maker = self.funder_address;
      signer = if self.signature_type == 3 then self.funder_address else self.signer_address;
      token_id = token;
      maker_amount = maker;
      taker_amount = taker;
      side = args.side;
      signature_type = self.signature_type % 256;
      timestamp_ms = lib.clock_ms c.http.tries;
      metadata = replicate 32 0;
      builder = self.builder;
    }

    abbrev pub make_order : PlaceOrderArgs dbl → ℕ × ℕ → ClobClient → Result (OrderV2 big)
    make_order args amounts c =
        bind (big.from_dec args.token_id) λ token. ok (order_of args amounts c token)

    unfoldable pub signature_bytes : PlaceOrderArgs dbl → Bool → OrderV2 big → Result Bytes
    signature_bytes args neg_risk o =
        if self.signature_type == 3
        then sign_order_1271 big crypto self.signer o self.funder_address args.protocol neg_risk
        else Signing.sign_order big crypto self.signer o args.protocol neg_risk

    -- Signed, and with the L2 key as its owner.
    abbrev pub body_of : PlaceOrderArgs dbl → OrderV2 big → Bytes → ApiCreds → PostOrderBody
    body_of args o signature creds = record {
      order = record {
        salt = o.salt;
        maker = to_hex0x o.maker;
        signer = to_hex0x o.signer;
        token_id = args.token_id;
        maker_amount = to_string o.maker_amount;
        taker_amount = to_string o.taker_amount;
        side = if is_buy args.side then codes "BUY" else codes "SELL";
        expiration = to_string args.expiration_s;
        signature_type = self.signature_type;
        timestamp = to_string o.timestamp_ms;
        metadata = bytes32_zero;
        builder = if is_empty self.builder_text then bytes32_zero else to_hex0x self.builder;
        signature = to_hex0x signature;
      };
      owner = creds.api_key;
      order_type = args.order_type;
      defer_exec = args.defer_exec;
      post_only = args.post_only;
    }

    abbrev pub prepared_of :
        PlaceOrderArgs dbl → OrderV2 big → Bytes → ApiCreds → Bytes → PreparedOrder
    prepared_of args o signature creds digest = record {
      order_id = to_hex0x digest;
      body = lib.write_order (body_of args o signature creds);
    }

    -- `prepare_order` behind the credentials, and behind the signature.
    abbrev pub with_creds :
        PlaceOrderArgs dbl → Bool → OrderV2 big → Bytes → ApiCreds → Run PreparedOrder
    with_creds args neg_risk o signature creds = do
      digest ← lift (Signing.order_digest big crypto o args.protocol neg_risk)
      return (prepared_of args o signature creds digest)

    abbrev pub with_signature : PlaceOrderArgs dbl → Bool → OrderV2 big → Bytes → Run PreparedOrder
    with_signature args neg_risk o signature = do
      creds ← ensure_l2_creds transport dbl lib big crypto self
      with_creds args neg_risk o signature creds

    abbrev pub sign_body : PlaceOrderArgs dbl → Bool → OrderV2 big → Run PreparedOrder
    sign_body args neg_risk o = do
      signature ← lift (signature_bytes args neg_risk o)
      with_signature args neg_risk o signature

    abbrev pub tick_error : String → ClobError
    tick_error tick = exception (invalid_argument (str_append "pm: bad tick size: " tick))

    abbrev pub range_error : ClobError
    range_error = exception (invalid_argument "pm: price out of range for tick size")

    abbrev pub prepared_error : ClobError
    prepared_error = exception (invalid_argument "pm: invalid prepared order")

    -- `if (bad) throw …;`
    abbrev pub ensure : Bool → ClobError → Run (Unit {0})
    ensure good e c = (c, if good then done tt else failed e)

    abbrev pub order_now : PlaceOrderArgs dbl → ℕ × ℕ → Run (OrderV2 big)
    order_now args amounts c = lift (make_order args amounts c) c

    -- `prepare_order` behind the amounts, behind the risk flag and behind the tick size.
    abbrev pub sign_now : PlaceOrderArgs dbl → Bool → ℕ × ℕ → Run PreparedOrder
    sign_now args neg_risk amounts = do o ← order_now args amounts; sign_body args neg_risk o

    abbrev pub with_amounts : PlaceOrderArgs dbl → String → Bool → ℕ × ℕ → Run PreparedOrder
    with_amounts args tick neg_risk amounts = do
      lift (check_amounts args tick amounts)
      sign_now args neg_risk amounts

    abbrev pub with_risk : PlaceOrderArgs dbl → String → Bool → Run PreparedOrder
    with_risk args tick neg_risk = do
      price ← lift (snap_price dbl args.price tick)
      amounts ← lift (amounts_for args tick price)
      with_amounts args tick neg_risk amounts

    abbrev pub ask_risk : PlaceOrderArgs dbl → String → Run PreparedOrder
    ask_risk args tick = do
      neg_risk ← given args.neg_risk (get_neg_risk transport dbl lib args.token_id)
      with_risk args tick neg_risk

    abbrev pub check_range : PlaceOrderArgs dbl → String → Run PreparedOrder
    check_range args tick = do
      ensure (not (price_out_of_range args tick)) range_error
      ask_risk args tick

    abbrev pub with_tick : PlaceOrderArgs dbl → String → Run PreparedOrder
    with_tick args tick = do ensure (valid_tick_size tick) (tick_error tick); check_range args tick

    abbrev pub with_asset : PlaceOrderArgs dbl → Run PreparedOrder
    with_asset args = do
      tick ← given args.tick_size (get_tick_size transport dbl lib args.token_id)
      with_tick args tick

    unfoldable pub prepare_order : PlaceOrderArgs dbl → Run PreparedOrder
    unfolding price_out_of_range amounts_for check_amounts signature_bytes
    prepare_order args = do
      lift (validate_order_asset big args.token_id args.protocol)
      with_asset args

    abbrev pub post_body : Bytes → Headers → Run Bytes
    post_body body headers = do
      r ← http_post_once transport (codes "/order") body headers
      require_200 (codes "order") r

    abbrev pub send_body : Bytes → Run Bytes
    send_body body = do
      headers ← l2_now transport dbl lib big crypto self (codes "POST") (codes "/order") body
      post_body body headers

    unfoldable pub post_prepared_order : PreparedOrder → Run Bytes
    unfolding valid_prepared require_200
    post_prepared_order prepared = do
      ensure (valid_prepared prepared) prepared_error
      send_body prepared.body

    unfoldable pub place_order : PlaceOrderArgs dbl → Run Bytes
    unfolding prepare_order post_prepared_order
    place_order args = do prepared ← prepare_order args; post_prepared_order prepared
