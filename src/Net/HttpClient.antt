-- ===== src/Net/HttpClient.antt =====
-- net/http_client.cpp and net/http_client.hpp: the HTTPS client. What the transport answers is a
-- parameter: one `Attempt` for each try of a request, in order.
pub mod Url
pub mod Requests
pub mod Retries
