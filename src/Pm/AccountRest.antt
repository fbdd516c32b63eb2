-- ===== src/Pm/AccountRest.antt =====
-- pm/account_rest.cpp: the validation of the queries of `AccountRestClient` and their targets.
pub mod Spellings
pub mod Conditions
pub mod Encoding
pub mod Client
pub mod SignedPath
use polymarket_cpp.Prelude.{
  ℕ, ◌+◌, ◌-◌, ◌*◌, ◌/◌, ◌%◌, ◌≤◌, Bool, true, false, ◌&&◌, ◌||◌, not, Option, none, some, List, [],
  ◌∷◌, ◌++◌, Bytes, codes, length, is_empty, drop, all, ltb, leb, ◌==◌, bytes_eq, starts_with,
  is_digit, is_lower, is_upper, is_hex, if◌then◌else◌, to_string, Result, ok, err, Error,
  invalid_argument, ◌>>=◌, ◌>>◌, throw_if,
}
use polymarket_cpp.Pm.U256.{U256Library}
use polymarket_cpp.Pm.Protocol.{validate_order_asset, position_v3, lower_text}

unfoldable pub decimal_text : Bytes → Bool
decimal_text value = not (is_empty value) && leb (length value) 80 && all is_digit value

unfoldable pub hex_value : Bytes → ℕ → Bool
hex_value value digits =
    length value == digits + 2 && starts_with value (codes "0x") && all is_hex (drop 2 value)

unfoldable pub opaque_id : Bytes → Bool
opaque_id value =
    not (is_empty value) && leb (length value) 256 && all (λ c. leb 33 c && leb c 126) value

abbrev pub is_cursor_char : ℕ → Bool
is_cursor_char c =
    is_digit c
    || is_lower c
    || is_upper c
    || c == b'+'
    || c == b'/'
    || c == b'='
    || c == b'-'
    || c == b'_'

unfoldable pub cursor : Bytes → Bool
cursor value = not (is_empty value) && leb (length value) 256 && all is_cursor_char value

abbrev pub is_unreserved : ℕ → Bool
is_unreserved c =
    is_digit c || is_lower c || is_upper c || c == b'-' || c == b'_' || c == b'.' || c == b'~'

-- `hex[n]` of "0123456789ABCDEF".
abbrev pub upper_hex_digit : ℕ → ℕ
upper_hex_digit n = if leb n 9 then b'0' + n else b'A' + (n - 10)

unfoldable pub percent_encode : Bytes → Bytes
percent_encode [] = []
percent_encode (c ∷ cs) =
    if is_unreserved c
    then c ∷ percent_encode cs
    else b'%' ∷ upper_hex_digit (c / 16) ∷ upper_hex_digit (c % 16) ∷ percent_encode cs

-- `target.contains('?')`
abbrev pub contains : ℕ → Bytes → Bool
contains c text = not (all (λ x. not (x == c)) text)

unfoldable pub append_query : Bytes → Bytes → Bytes → Bytes
unfolding percent_encode
append_query target name value =
    target ++ (if contains b'?' target then b'&' else b'?') ∷ (name ++ b'=' ∷ percent_encode value)

abbrev pub append_optional : Bytes → Bytes → Bytes → Bytes
append_optional target name value =
    if is_empty value then target else append_query target name value

pub record AccountOpenOrderParams : Type 0 where
  pub market : Bytes
  pub asset_id : Bytes
  pub id : Bytes

pub record AccountTradeParams : Type 0 where
  pub market : Bytes
  pub asset_id : Bytes
  pub after : Bytes
  pub before : Bytes
  pub maker_address : Bytes
  pub id : Bytes

pub record AccountPositionV2Params : Type 0 where
  pub user : Bytes
  pub conditions : List Bytes
  pub closed : Bool
  pub include_archived : Bool
  pub limit : ℕ

-- Given and not valid.
abbrev pub bad : (Bytes → Bool) → Bytes → Bool
bad valid value = not (is_empty value) && not (valid value)

abbrev pub condition_text : Bytes → Bool
condition_text value = hex_value value 64 || hex_value value 62

unfoldable pub validate_open_order_params : AccountOpenOrderParams → Result (Unit {0})
unfolding hex_value decimal_text
validate_open_order_params p =
    throw_if
      (bad condition_text p.market || bad decimal_text p.asset_id || bad (λ v. hex_value v 64) p.id)
      (invalid_argument "pm: invalid open-orders query")

unfoldable pub validate_trade_params : AccountTradeParams → Result (Unit {0})
unfolding hex_value decimal_text opaque_id
validate_trade_params p =
    throw_if
      (bad condition_text p.market
        || bad decimal_text p.asset_id
        || bad decimal_text p.after
        || bad decimal_text p.before
        || bad (λ v. hex_value v 40) p.maker_address
        || bad opaque_id p.id)
      (invalid_argument "pm: invalid trades query")

unfoldable pub open_orders_target : AccountOpenOrderParams → Bytes → Result Bytes
unfolding append_query
open_orders_target p next_cursor = do
  validate_open_order_params p
  throw_if (not (cursor next_cursor)) (invalid_argument "pm: invalid open-orders cursor")
  let market = append_optional (codes "/data/orders") (codes "market") p.market
  let asset = append_optional market (codes "asset_id") p.asset_id
  let id = append_optional asset (codes "id") p.id
  ok (append_query id (codes "next_cursor") next_cursor)

unfoldable pub trades_target : AccountTradeParams → Bytes → Result Bytes
unfolding append_query
trades_target p next_cursor = do
  validate_trade_params p
  throw_if (not (cursor next_cursor)) (invalid_argument "pm: invalid trades cursor")
  let market = append_optional (codes "/data/trades") (codes "market") p.market
  let asset = append_optional market (codes "asset_id") p.asset_id
  let after = append_optional asset (codes "after") p.after
  let before = append_optional after (codes "before") p.before
  let maker = append_optional before (codes "maker_address") p.maker_address
  let id = append_optional maker (codes "id") p.id
  ok (append_query id (codes "next_cursor") next_cursor)

unfoldable pub exact_order_target : Bytes → Result Bytes
exact_order_target order_id = do
  throw_if (not (hex_value order_id 64)) (invalid_argument "pm: invalid exact order identifier")
  ok (codes "/data/order/" ++ order_id)

abbrev pub is_collateral : Bytes → Bool
is_collateral asset_type = bytes_eq asset_type (codes "COLLATERAL")

abbrev pub is_v2 : Bytes → Bool
is_v2 asset_type = bytes_eq asset_type (codes "CONDITIONAL-V2")

module _ (big : U256Library) where
  -- The signature type is an `int`; a negative one is refused as one above three is.
  unfoldable pub balance_allowance_target : ℕ → Bytes → Bytes → Result Bytes
  unfolding append_query
  balance_allowance_target signature_type asset_type token_id = do
    throw_if
        (ltb 3 signature_type
          || not (is_collateral asset_type)
            && not (bytes_eq asset_type (codes "CONDITIONAL"))
            && not (is_v2 asset_type)
          || is_collateral asset_type && not (is_empty token_id)
          || not (is_collateral asset_type) && not (decimal_text token_id))
        (invalid_argument "pm: invalid balance-allowance query")
    if is_v2 asset_type then validate_order_asset big token_id position_v3 else ok tt
    let signature =
        append_query (codes "/balance-allowance") (codes "signature_type")
          (to_string signature_type)
    let asset = append_query signature (codes "asset_type") asset_type
    ok (append_optional asset (codes "token_id") token_id)

unfoldable pub positions_target : Bytes → ℕ → ℕ → Result Bytes
unfolding append_query
positions_target user limit offset = do
  throw_if (not (hex_value user 40) || limit == 0 || ltb 500 limit || ltb 10000 offset)
      (invalid_argument "pm: invalid positions query")
  let with_user = append_query (codes "/positions") (codes "user") user
  let threshold = append_query with_user (codes "sizeThreshold") (codes "0")
  let limited = append_query threshold (codes "limit") (to_string limit)
  ok (append_query limited (codes "offset") (to_string offset))

-- The key under which two spellings of a condition are the same.
abbrev pub normalized : Bytes → Bytes
normalized condition =
    if length condition == 64 then lower_text condition ++ codes "00" else lower_text condition

abbrev pub member : Bytes → List Bytes → Bool
member k [] = false
member k (x ∷ xs) = bytes_eq k x || member k xs

abbrev pub joined : Bytes → Bytes → Bytes
joined text condition = if is_empty text then condition else text ++ b',' ∷ condition

-- The loop over the conditions: the keys that were seen, and the text so far.
unfoldable pub join_conditions : List Bytes → List Bytes → Bytes → Result Bytes
join_conditions [] seen text = ok text
join_conditions (c ∷ cs) seen text = do
  throw_if (not (condition_text c)) (invalid_argument "pm: invalid positions-v2 condition")
  throw_if (member (normalized c) seen) (invalid_argument "pm: duplicate positions-v2 condition")
  join_conditions cs (normalized c ∷ seen) (joined text c)

unfoldable pub positions_v2_target : AccountPositionV2Params → Bytes → Result Bytes
unfolding append_query join_conditions
positions_v2_target p next_cursor = do
  throw_if
      (not (hex_value p.user 40)
        || p.limit == 0
        || ltb 1000 p.limit
        || ltb 20 (length p.conditions)
        || p.closed && p.include_archived
        || ltb 4096 (length next_cursor)
        || not (all (λ c. not (ltb c 32 || c == 127)) next_cursor))
      (invalid_argument "pm: invalid positions-v2 query")
  conditions ← join_conditions p.conditions [] []
  let with_user = append_query (codes "/v2/positions") (codes "user") p.user
  let with_conditions = append_optional with_user (codes "condition_id") conditions
  let status =
      append_query with_conditions (codes "status")
        (if p.closed then codes "CLOSED" else codes "OPEN")
  let filter_type = append_query status (codes "filter_type") (codes "TOKENS")
  let amount = append_query filter_type (codes "filter_amount") (codes "0")
  let archived =
      if p.include_archived
      then append_query amount (codes "include_archived") (codes "true")
      else amount
  let sort_by = append_query archived (codes "sort_by") (codes "TOKENS")
  let direction = append_query sort_by (codes "sort_direction") (codes "DESC")
  let limited = append_query direction (codes "limit") (to_string p.limit)
  ok (append_optional limited (codes "cursor") next_cursor)
