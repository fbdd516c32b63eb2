-- ===== src/Pm/AccountRest/Client.antt =====
-- pm/account_rest.cpp: `AccountRestClient`. The two transports and the clock are functions over a state.
use polymarket_cpp.Prelude.{
  ℕ, ◌||◌, Option, none, some, [], Bytes, codes, is_empty, all, ltb, ◌==◌, if◌then◌else◌, Result,
  ok, err, Error, invalid_argument, runtime_error,
}
use polymarket_cpp.Net.HttpClient.Requests.{Headers, Outcome}
use polymarket_cpp.Pm.U256.{U256Library}
use polymarket_cpp.Pm.Crypto.{CryptoLibrary}
use polymarket_cpp.Pm.Feeds.{ApiCreds}
use polymarket_cpp.Pm.Auth.{l2_headers}
use polymarket_cpp.Pm.AccountRest.{
  AccountOpenOrderParams, AccountTradeParams, AccountPositionV2Params, open_orders_target,
  trades_target, exact_order_target, balance_allowance_target, positions_target,
  positions_v2_target,
}

abbrev pub ClobGetHandler : Type 0 → Type 0
ClobGetHandler S = Bytes → Headers → S → S × Outcome

abbrev pub DataGetHandler : Type 0 → Type 0
DataGetHandler S = Bytes → S → S × Outcome

abbrev pub Clock : Type 0 → Type 0
Clock S = S → S × ℕ

pub record AccountRestConfig (S : Type 0) : Type 0 where
  pub clob_host : Bytes
  pub data_api_host : Bytes
  pub creds : ApiCreds
  pub signer_address : Bytes
  pub signature_type : ℕ
  pub unix_seconds : Option (Clock S)

pub record AccountRestClient (S : Type 0) : Type 0 where
  pub creds : ApiCreds
  pub signer_address : Bytes
  pub signature_type : ℕ
  pub unix_seconds : Clock S
  pub clob_get : ClobGetHandler S
  pub data_get : DataGetHandler S

-- A transport's answer, or what was thrown before its call.
pub data Answer : Type 0 where
  answered : Outcome → Answer
  refused : Error → Answer

abbrev invalid : Error
invalid = invalid_argument "pm: account REST credentials or transports are invalid"

module _ {S : Type 0} where
  abbrev clock_of : Clock S → Option (Clock S) → Clock S
  clock_of now none = now
  clock_of now (some clock) = clock

  abbrev with_transports :
      Clock S
      → AccountRestConfig S
      → Option (ClobGetHandler S)
      → Option (DataGetHandler S)
      → Result (AccountRestClient S)
  with_transports now config (some clob_get) (some data_get) = ok (record {
    creds = config.creds;
    signer_address = config.signer_address;
    signature_type = config.signature_type;
    unix_seconds = clock_of now config.unix_seconds;
    clob_get = clob_get;
    data_get = data_get;
  })
  with_transports now config _ _ = err invalid

  -- The constructor over transports; an empty function is `none`, and `now` is `now_seconds`.
  unfoldable pub make_account_rest :
      Clock S
      → AccountRestConfig S
      → Option (ClobGetHandler S)
      → Option (DataGetHandler S)
      → Result (AccountRestClient S)
  make_account_rest now config clob_get data_get =
      if is_empty config.clob_host
        || is_empty config.data_api_host
        || is_empty config.creds.api_key
        || is_empty config.creds.secret
        || is_empty config.creds.passphrase
        || all (λ b. b == 0) config.signer_address
        || ltb 3 config.signature_type
      then err invalid
      else with_transports now config clob_get data_get

module _ {S : Type 0} (big : U256Library) (crypto : CryptoLibrary big)
    (client : AccountRestClient S) where
  abbrev send_signed : Bytes → S → Result Headers → S × Answer
  send_signed target s (err e) = (s, refused e)
  send_signed target s (ok headers) =
      let (after, outcome) = client.clob_get target headers s in (after, answered outcome)

  abbrev at_time : Bytes → Bytes → S × ℕ → S × Answer
  at_time signed_path target (s, timestamp) =
      if timestamp == 0
      then (s, refused (runtime_error "pm: account REST clock is invalid"))
      else send_signed target s (
          l2_headers big crypto client.creds client.signer_address timestamp (codes "GET")
            signed_path [])

  unfoldable pub l2_get : Bytes → Bytes → S → S × Answer
  l2_get signed_path target s = at_time signed_path target (client.unix_seconds s)

  -- A call whose target throws first.
  abbrev pub l2_page : Bytes → Result Bytes → S → S × Answer
  l2_page signed_path (ok target) s = l2_get signed_path target s
  l2_page signed_path (err e) s = (s, refused e)

  abbrev pub data_page : Result Bytes → S → S × Answer
  data_page (ok target) s =
      let (after, outcome) = client.data_get target s in (after, answered outcome)
  data_page (err e) s = (s, refused e)

  unfoldable pub get_open_orders_page : AccountOpenOrderParams → Bytes → S → S × Answer
  get_open_orders_page params next_cursor =
      l2_page (codes "/data/orders") (open_orders_target params next_cursor)

  unfoldable pub get_trades_page : AccountTradeParams → Bytes → S → S × Answer
  get_trades_page params next_cursor =
      l2_page (codes "/data/trades") (trades_target params next_cursor)

  -- The target is the path that is signed.
  abbrev exact : Result Bytes → S → S × Answer
  exact (ok target) s = l2_get target target s
  exact (err e) s = (s, refused e)

  unfoldable pub get_order : Bytes → S → S × Answer
  get_order order_id = exact (exact_order_target order_id)

  unfoldable pub get_account_balance : Bytes → Bytes → S → S × Answer
  get_account_balance asset_type token_id =
      l2_page (codes "/balance-allowance")
        (balance_allowance_target big client.signature_type asset_type token_id)

  unfoldable pub get_closed_only_mode : S → S × Answer
  get_closed_only_mode =
      l2_get (codes "/auth/ban-status/closed-only") (codes "/auth/ban-status/closed-only")

  unfoldable pub get_positions_page : Bytes → ℕ → ℕ → S → S × Answer
  get_positions_page user limit offset = data_page (positions_target user limit offset)

  unfoldable pub get_positions_v2_page : AccountPositionV2Params → Bytes → S → S × Answer
  get_positions_v2_page params cursor = data_page (positions_v2_target params cursor)
