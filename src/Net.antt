-- ===== src/Net.antt =====
-- net/: the bounded write queue, the reconnecting socket client and the HTTPS client.
pub mod WriteQueue
pub mod WsClient
pub mod HttpClient
pub mod Tests
