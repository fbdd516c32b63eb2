-- ===== src/Net/WsClient/NeverIdle.antt =====
-- The completions and the callbacks of a client that was started, and all its events, leave it live.
use polymarket_cpp.Net.WsClient.State.{WsClient}
