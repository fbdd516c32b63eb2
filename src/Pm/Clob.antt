-- ===== src/Pm/Clob.antt =====
-- pm/clob.cpp and pm/clob.hpp: `ClobClient`, the order client, over the HTTPS client. JSON, the clock and
-- random words are a parameter.
pub mod Session
pub mod Queries
pub mod ServerTime
pub mod Orders
pub mod Sending
pub mod Says
pub mod Preparing
