-- ===== src/Pm/Feeds/Session.antt =====
-- The server's subscriptions over one connection, whatever a caller's thread changes meanwhile.
use polymarket_cpp.Prelude.{◌≡◌, true, List, [], ◌∷◌, ◌++◌, Bytes}
use polymarket_cpp.Pm.Feeds.{contains, SocketCall, Subscriptions}
use polymarket_cpp.Pm.Feeds.MarketWs
use polymarket_cpp.Pm.Feeds.UserWs
use polymarket_cpp.Pm.Feeds.UserWs.{UserWs}
use polymarket_cpp.Pm.Feeds.Delta.{fresh_server, serve_all}

-- Calls of `subscribe` on a connected socket, one after another.
unfoldable pub each {ℓ} :
    {S : Type ℓ}
    → (List Bytes → S → S × List SocketCall)
    → List (List Bytes)
    → S
    → S × List SocketCall
each step [] s = (s, [])
each step (ids ∷ rest) s =
    let now = step ids s in let later = each step rest now.0 in (later.0, now.1 ++ later.1)

-- The subscriptions asked for last.
unfoldable pub last_of : List (List Bytes) → List Bytes → List Bytes
last_of [] d = d
last_of (ids ∷ rest) d = last_of rest ids

abbrev both : List Bytes → Subscriptions
both ids = record { desired = ids; active = ids }

-- The server starts with nothing and ends with exactly `final`, and the feed knows it.
abbrev pub Follows : List Bytes → Subscriptions → List SocketCall → Type 0
Follows final s calls =
    ((x : Bytes) → (serve_all calls fresh_server).has x ≡ contains x final)
    × (s ≡ record { desired = final; active = final })

-- One connection whose first frame is the initial one. The socket is connected before `on_open` runs, so
-- another thread may change the subscriptions before the desired set is read (`early`), with its frames behind
-- the initial one, and after (`late`). The user feed's initial frame is written on the strand, at the front,
-- before any frame of the other thread.
unfoldable pub market_session :
    (early late : List (List Bytes)) → Subscriptions → Subscriptions × List SocketCall
unfolding each
market_session early late s =
    let r1 = each (MarketWs.subscribe true) early s in
    let r2 = MarketWs.send_initial r1.0 in
    let r3 = each (MarketWs.subscribe true) late r2.0 in (r3.0, r2.1 ++ (r1.1 ++ r3.1))

unfoldable pub user_session : (early late : List (List Bytes)) → UserWs → UserWs × List SocketCall
unfolding each
user_session early late u =
    let r1 = each (UserWs.subscribe true) early u in
    let r2 = UserWs.send_initial r1.0 in
    let r3 = each (UserWs.subscribe true) late r2.0 in (r3.0, r2.1 ++ (r1.1 ++ r3.1))
