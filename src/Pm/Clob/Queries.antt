-- ===== src/Pm/Clob/Queries.antt =====
-- The market queries of `ClobClient`, its cancels and the heartbeat.
use polymarket_cpp.Prelude.{
  ℕ, Bool, ◌||◌, not, Option, none, some, ◌⊎◌, inl, inr, [], ◌++◌, Bytes, String, codes, is_empty,
  length, drop, all, ltb, ◌==◌, bytes_eq, is_digit, is_lower, is_upper, if◌then◌else◌,
  runtime_error,
}
use polymarket_cpp.Net.HttpClient.Requests.{
  Headers, HttpResponse, Attempt, request, request_once, delete_verb,
}
use polymarket_cpp.Pm.Double.{DoubleLibrary}
use polymarket_cpp.Pm.U256.{U256Library}
use polymarket_cpp.Pm.Crypto.{CryptoLibrary}
use polymarket_cpp.Pm.Amounts.{Side, buy}
use polymarket_cpp.Pm.AccountRest.{open_orders_target, balance_allowance_target}
use polymarket_cpp.Pm.Clob.Session.{
  ClobLibrary, Identity, heartbeat_id_mismatch, Run, ◌>>=◌, return, throw, exception, lift,
  answered, require_200, http_get, http_post, l2_now,
}

abbrev pub is_id_char : ℕ → Bool
is_id_char c =
    is_digit c || is_lower c || is_upper c || c == b'-' || c == b'_' || c == b':' || c == b'.'

-- What the fields of a mismatch come to.
abbrev pub checked_id : Option Bytes → Option Bytes → Option Bytes
checked_id (some msg) (some id) =
    if not (bytes_eq msg (codes "Invalid Heartbeat ID"))
      || ltb 128 (length id)
      || not (all is_id_char id)
    then none
    else some id
checked_id _ _ = none

abbrev pub read_id : Option (Option Bytes × Option Bytes) → Option Bytes
read_id none = none
read_id (some (msg, id)) = checked_id msg id

-- `kAccountInitialCursor`
abbrev initial_cursor : Bytes
initial_cursor = codes "MA=="

module _ (transport : ℕ → Attempt) (dbl : DoubleLibrary) (lib : ClobLibrary dbl) where
  unfoldable pub heartbeat_mismatch_id : HttpResponse → Option Bytes
  heartbeat_mismatch_id r =
      if not (r.status == 400) || is_empty r.body || ltb 4096 (length r.body)
      then none
      else read_id (lib.read_mismatch r.body)

  unfoldable pub get_book : Bytes → Run Bytes
  unfolding require_200
  get_book token_id = do
    r ← http_get transport (codes "/book?token_id=" ++ token_id) []
    require_200 (codes "book") r

  unfoldable pub get_midpoint : Bytes → Run Bytes
  unfolding require_200
  get_midpoint token_id = do
    r ← http_get transport (codes "/midpoint?token_id=" ++ token_id) []
    require_200 (codes "midpoint") r

  abbrev pub side_text : Side → Bytes
  side_text buy = codes "BUY"
  side_text _ = codes "SELL"

  unfoldable pub get_price : Bytes → Side → Run Bytes
  unfolding require_200
  get_price token_id side = do
    r ←
        http_get transport
          (codes "/price?token_id=" ++ (token_id ++ (codes "&side=" ++ side_text side))) []
    require_200 (codes "price") r

  -- A number is brought back to the spelling of the table.
  abbrev pub nearest_key : dbl.Double → Run String
  nearest_key d =
      if lib.near "0.1" d
      then return "0.1"
      else if lib.near "0.01" d
      then return "0.01"
      else if lib.near "0.005" d
      then return "0.005"
      else if lib.near "0.0025" d
      then return "0.0025"
      else if lib.near "0.001" d
      then return "0.001"
      else if lib.near "0.0001" d
      then return "0.0001"
      else throw (exception (runtime_error "pm: unknown tick size"))

  abbrev pub tick_key : String ⊎ dbl.Double → Run String
  tick_key (inl key) = return key
  tick_key (inr d) = nearest_key d

  unfoldable pub get_tick_size : Bytes → Run String
  unfolding require_200
  get_tick_size token_id = do
    r ← http_get transport (codes "/tick-size?token_id=" ++ token_id) []
    body ← require_200 (codes "tick-size") r
    v ← lift (lib.read_tick_size body)
    tick_key v

  unfoldable pub get_neg_risk : Bytes → Run Bool
  unfolding require_200
  get_neg_risk token_id = do
    r ← http_get transport (codes "/neg-risk?token_id=" ++ token_id) []
    body ← require_200 (codes "neg-risk") r
    lift (lib.read_neg_risk body)

  -- `http_.request(delete_, …)` and its variant that does not send twice.
  abbrev delete : Bytes → Bytes → Headers → Run HttpResponse
  delete target body headers c =
      answered c
        (request transport delete_verb target body headers (codes "application/json") c.http)

  abbrev delete_once : Bytes → Bytes → Headers → Run HttpResponse
  delete_once target body headers c =
      answered c
        (request_once transport delete_verb target body headers (codes "application/json") c.http)

  module _ (big : U256Library) (crypto : CryptoLibrary big) (self : Identity) where
    unfoldable pub cancel_order_once : Bytes → Run Bytes
    unfolding require_200
    cancel_order_once order_id = do
      headers ←
          l2_now transport dbl lib big crypto self (codes "DELETE") (codes "/order")
            (lib.write_cancel order_id)
      r ← delete_once (codes "/order") (lib.write_cancel order_id) headers
      require_200 (codes "cancel") r

    unfoldable pub cancel_order : Bytes → Run Bytes
    unfolding require_200
    cancel_order order_id = do
      headers ←
          l2_now transport dbl lib big crypto self (codes "DELETE") (codes "/order")
            (lib.write_cancel order_id)
      r ← delete (codes "/order") (lib.write_cancel order_id) headers
      require_200 (codes "cancel") r

    unfoldable pub cancel_all : Run Bytes
    unfolding require_200
    cancel_all = do
      headers ← l2_now transport dbl lib big crypto self (codes "DELETE") (codes "/cancel-all") []
      r ← delete (codes "/cancel-all") [] headers
      require_200 (codes "cancel-all") r

    abbrev pub heartbeat_answer : HttpResponse → Option Bytes → Run Bytes
    heartbeat_answer r (some expected_id) = throw (heartbeat_id_mismatch r.body expected_id)
    heartbeat_answer r none = require_200 (codes "heartbeat") r

    unfoldable pub post_heartbeat : Bytes → Run Bytes
    unfolding heartbeat_mismatch_id
    post_heartbeat heartbeat_id = do
      headers ←
          l2_now transport dbl lib big crypto self (codes "POST") (codes "/v1/heartbeats")
            (lib.write_heartbeat heartbeat_id)
      r ← http_post transport (codes "/v1/heartbeats") (lib.write_heartbeat heartbeat_id) headers
      heartbeat_answer r (heartbeat_mismatch_id r)

    unfoldable pub get_open_orders : Run Bytes
    unfolding require_200
    get_open_orders = do
      target ←
          lift (open_orders_target (record { market = []; asset_id = []; id = [] }) initial_cursor)
      headers ← l2_now transport dbl lib big crypto self (codes "GET") (codes "/data/orders") []
      r ← http_get transport target headers
      require_200 (codes "orders") r

    unfoldable pub get_balance_allowance : Bytes → Bytes → Run Bytes
    unfolding require_200
    get_balance_allowance asset_type token_id = do
      q ← lift (balance_allowance_target big self.signature_type asset_type token_id)
      headers ←
          l2_now transport dbl lib big crypto self (codes "GET") (codes "/balance-allowance") []
      r ← http_get transport q headers
      require_200 (codes "balance-allowance") r

    -- `q.insert(…, "/update")` behind "/balance-allowance".
    unfoldable pub update_balance_allowance : Bytes → Bytes → Run Bytes
    unfolding require_200
    update_balance_allowance asset_type token_id = do
      q ← lift (balance_allowance_target big self.signature_type asset_type token_id)
      headers ←
          l2_now transport dbl lib big crypto self (codes "GET") (codes "/balance-allowance/update")
            []
      r ← http_get transport (codes "/balance-allowance/update" ++ drop 18 q) headers
      require_200 (codes "balance-allowance/update") r
