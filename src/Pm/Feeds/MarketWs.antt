-- ===== src/Pm/Feeds/MarketWs.antt =====
-- pm/market_ws.cpp: `MarketWs`. Its state is its two sets of subscriptions; its handlers are by whether
-- they are set.
use polymarket_cpp.Prelude.{
  Bool, List, [], ◌∷◌, ◌++◌, Bytes, codes, is_empty, bytes_eq, if◌then◌else◌,
}
use polymarket_cpp.Net.WsClient.State.{Environment}
use polymarket_cpp.Pm.Feeds.{
  missing, SubscriptionDelta, market_initial, SocketCall, send_call, start_call, stop_call,
  kick_call, AppCall, raw_call, activity_call, open_call, Subscriptions, call_if, changes,
}

unfoldable pub delta : List Bytes → List Bytes → SubscriptionDelta
unfolding missing
delta desired active = record { add = missing desired active; remove = missing active desired }

-- `on_raw_`, `on_activity_` and `on_open_`.
pub record MarketHandlers : Type 0 where
  pub raw_handler : Bool
  pub activity_handler : Bool
  pub open_handler : Bool

-- `set_keepalive`
abbrev pub environment : Environment → Environment
environment env = record env { keepalive_interval = 10000; keepalive_text = codes "PING" }

-- With what `connected()` answers.
unfoldable pub subscribe : Bool → List Bytes → Subscriptions → Subscriptions × List SocketCall
unfolding delta
subscribe connected token_ids s =
    if connected
    then (record { desired = token_ids; active = token_ids }, changes (delta token_ids s.active))
    else (record s { desired = token_ids }, [])

-- An empty set is not sent.
unfoldable pub send_initial : Subscriptions → Subscriptions × List SocketCall
send_initial s = (
  record { desired = s.desired; active = s.desired },
  if is_empty s.desired then [] else send_call (market_initial s.desired) ∷ [],
)

-- The callbacks that the constructor gives to the socket.
unfoldable pub on_message : MarketHandlers → Bytes → List AppCall
on_message handlers msg =
    call_if handlers.activity_handler activity_call
    ++ (if bytes_eq msg (codes "PONG") then [] else call_if handlers.raw_handler (raw_call msg))

unfoldable pub on_open :
    MarketHandlers → Subscriptions → (Subscriptions × List SocketCall) × List AppCall
unfolding send_initial
on_open handlers s = (send_initial s, call_if handlers.open_handler open_call)

abbrev pub start : List SocketCall
start = start_call ∷ []

abbrev pub stop : List SocketCall
stop = stop_call ∷ []

abbrev pub kick : List SocketCall
kick = kick_call ∷ []
