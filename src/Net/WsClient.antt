-- ===== src/Net/WsClient.antt =====
-- net/ws_client.cpp and net/ws_client.hpp: `WsClient`, the socket client that reconnects.
pub mod State
pub mod Handlers
pub mod Events
pub mod Invariant
pub mod Preserved
pub mod Completions
pub mod Reachable
pub mod Fresh
pub mod Generations
pub mod CallSteps
pub mod Origins
pub mod Runs
pub mod Stopping
pub mod Live
pub mod NeverIdle
