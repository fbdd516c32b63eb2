-- ===== src/Pm/AccountRest/SignedPath.antt =====
-- The path that the headers of an account query sign is its target without the query.
use polymarket_cpp.Prelude.{ℕ, ◌≡◌, ◌⊎◌, false, [], ◌∷◌, ◌++◌, Bytes, codes, ◌<◌, ok, Error}
use polymarket_cpp.Net.HttpClient.Requests.{Headers}
use polymarket_cpp.Pm.U256.{U256Library}
use polymarket_cpp.Pm.Crypto.{CryptoLibrary}
use polymarket_cpp.Pm.Auth.{l2_headers}
use polymarket_cpp.Pm.AccountRest.{AccountOpenOrderParams, AccountTradeParams, contains}
use polymarket_cpp.Pm.AccountRest.Client.{
  AccountRestClient, Answer, answered, refused, get_open_orders_page, get_trades_page, get_order,
  get_account_balance, get_closed_only_mode,
}

-- The path by itself, or with a query behind it.
abbrev pub IsTargetOf : Bytes → Bytes → Type 0
IsTargetOf path target = (target ≡ path) ⊎ ((query : Bytes) × (target ≡ path ++ b'?' ∷ query))

-- The account queries that are signed.
pub data AccountQuery : Type 0 where
  open_orders : AccountOpenOrderParams → Bytes → AccountQuery
  trades : AccountTradeParams → Bytes → AccountQuery
  one_order : Bytes → AccountQuery
  balance : Bytes → Bytes → AccountQuery
  closed_only : AccountQuery

module _ {S : Type 0} (big : U256Library) (crypto : CryptoLibrary big)
    (client : AccountRestClient S) where
  abbrev pub ask : AccountQuery → S → S × Answer
  ask (open_orders p next_cursor) = get_open_orders_page big crypto client p next_cursor
  ask (trades p next_cursor) = get_trades_page big crypto client p next_cursor
  ask (one_order id) = get_order big crypto client id
  ask (balance asset_type token_id) = get_account_balance big crypto client asset_type token_id
  ask closed_only = get_closed_only_mode big crypto client

  -- Nothing was sent.
  abbrev pub Unsent : S × Answer → Type 0
  Unsent run = (s : S) × (e : Error) × (run ≡ (s, refused e))

  -- One call of the transport, with headers for the path of its target.
  abbrev pub SignedFor : S → S × Answer → Bytes → Type 0
  SignedFor s run path =
      (target : Bytes) × (headers : Headers) × (now : S × ℕ) × IsTargetOf path target
      × (client.unix_seconds s ≡ now)
      × (0 < now.1)
      × (l2_headers big crypto client.creds client.signer_address now.1 (codes "GET") path []
          ≡ ok headers)
      × (run ≡ (
        (client.clob_get target headers now.0).0,
        answered (client.clob_get target headers now.0).1,
      ))

  abbrev pub HasPath : S → S × Answer → Type 0
  HasPath s run = (path : Bytes) × (contains b'?' path ≡ false) × SignedFor s run path
