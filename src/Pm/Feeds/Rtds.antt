-- ===== src/Pm/Feeds/Rtds.antt =====
-- pm/rtds.cpp: `Rtds`, which sends all its subscriptions again on every connection.
use polymarket_cpp.Prelude.{
  Bool, ◌||◌, List, [], ◌∷◌, ◌++◌, Bytes, codes, is_empty, bytes_eq, if◌then◌else◌,
}
use polymarket_cpp.Net.WsClient.State.{Environment}
use polymarket_cpp.Pm.Feeds.{
  action, SocketCall, send_call, start_call, stop_call, kick_call, AppCall, raw_call, call_if,
}

unfoldable pub wrap_action : Bytes → Bytes → Bytes
wrap_action name sub_json =
    codes "{\"action\":\"" ++ name ++ codes "\",\"subscriptions\":[" ++ sub_json ++ codes "]}"

abbrev pub environment : Environment → Environment
environment env = record env { keepalive_interval = 5000; keepalive_text = codes "ping" }

abbrev pub on_message : Bool → Bytes → List AppCall
on_message raw msg =
    if bytes_eq msg (codes "PONG") || bytes_eq msg (codes "pong") || is_empty msg
    then []
    else call_if raw (raw_call msg)

-- The state is `subs_`.
unfoldable pub on_open : List Bytes → List SocketCall
unfolding wrap_action
on_open [] = []
on_open (s ∷ subs) = send_call (action (wrap_action (codes "subscribe") s)) ∷ on_open subs

-- With what `connected()` answers.
unfoldable pub send_sub : Bool → Bytes → List Bytes → List Bytes × List SocketCall
unfolding wrap_action
send_sub connected sub_json subs = (
  subs ++ sub_json ∷ [],
  if connected then send_call (action (wrap_action (codes "subscribe") sub_json)) ∷ [] else [],
)

abbrev filtered : Bytes → Bytes → Bytes
filtered topic symbol =
    codes "{\"topic\":\""
    ++ topic
    ++ codes "\",\"type\":\"*\",\"filters\":\"{\\\"symbol\\\":\\\""
    ++ symbol
    ++ codes "\\\"}\"}"

-- Each of the calls asks the socket again whether it is connected.
unfoldable pub subscribe_crypto_prices :
    List (Bool × Bytes) → List Bytes → List Bytes × List SocketCall
unfolding send_sub
subscribe_crypto_prices [] subs = (subs, [])
subscribe_crypto_prices ((connected, symbol) ∷ rest) subs =
    let (subs1, calls1) = send_sub connected (filtered (codes "crypto_prices") symbol) subs in
    let (subs2, calls2) = subscribe_crypto_prices rest subs1 in (subs2, calls1 ++ calls2)

unfoldable pub subscribe_crypto_prices_chainlink :
    Bool → Bytes → List Bytes → List Bytes × List SocketCall
unfolding send_sub
subscribe_crypto_prices_chainlink connected symbol subs =
    send_sub connected (filtered (codes "crypto_prices_chainlink") symbol) subs

abbrev pub start : List SocketCall
start = start_call ∷ []

abbrev pub stop : List SocketCall
stop = stop_call ∷ []

abbrev pub kick : List SocketCall
kick = kick_call ∷ []
