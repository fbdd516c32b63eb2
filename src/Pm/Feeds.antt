-- ===== src/Pm/Feeds.antt =====
-- pm/market_ws.cpp, pm/user_ws.cpp and pm/rtds.cpp: what the three feeds share. The text of a frame,
-- which glaze writes, stays a value.
pub mod MarketWs
pub mod UserWs
pub mod Rtds
pub mod Delta
pub mod Session
pub mod Opening
use polymarket_cpp.Prelude.{
  Bool, true, false, ◌||◌, List, [], ◌∷◌, ◌++◌, Bytes, is_empty, bytes_eq, if◌then◌else◌,
}
use polymarket_cpp.Net.WsClient.Events.{
  Event, start_event, kick_event, stop_event, send_event, send_first_event,
}

-- `std::find(…) != end()`
abbrev pub contains : Bytes → List Bytes → Bool
contains x [] = false
contains x (y ∷ ys) = bytes_eq y x || contains x ys

pub record SubscriptionDelta : Type 0 where
  pub add : List Bytes
  pub remove : List Bytes

-- What of `xs` is not in `ys`, in order.
unfoldable pub missing : List Bytes → List Bytes → List Bytes
missing [] ys = []
missing (x ∷ xs) ys = let rest = missing xs ys in if contains x ys then rest else x ∷ rest

pub record ApiCreds : Type 0 where
  pub api_key : Bytes
  pub secret : Bytes
  pub passphrase : Bytes

-- The messages to the server, by the function that writes them.
pub data Frame : Type 0 where
  market_initial subscribe_op unsubscribe_op : List Bytes → Frame
  user_initial : ApiCreds → List Bytes → Frame
  action : Bytes → Frame

-- The calls of the feed's `WsClient`, and of the application.
pub data SocketCall : Type 0 where
  send_call send_first_call : Frame → SocketCall
  start_call stop_call kick_call : SocketCall

pub data AppCall : Type 0 where
  raw_call : Bytes → AppCall
  activity_call open_call completion_call : AppCall

-- A call on the strand of the socket, with the text of its frame.
abbrev pub event_of : (Frame → Bytes) → SocketCall → Event
event_of text (send_call f) = send_event (text f)
event_of text (send_first_call f) = send_first_event (text f)
event_of text start_call = start_event
event_of text stop_call = stop_event true
event_of text kick_call = kick_event

-- `desired_` and `active_`.
pub record Subscriptions : Type 0 where
  pub desired : List Bytes
  pub active : List Bytes

-- `if (handler) handler(…);`
abbrev pub call_if : Bool → AppCall → List AppCall
call_if handler c = if handler then c ∷ [] else []

-- `if (!change.add.empty()) …; if (!change.remove.empty()) …;`
abbrev pub changes : SubscriptionDelta → List SocketCall
changes d =
    (if is_empty d.add then [] else send_call (subscribe_op d.add) ∷ [])
    ++ (if is_empty d.remove then [] else send_call (unsubscribe_op d.remove) ∷ [])
