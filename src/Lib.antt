-- ===== src/Lib.antt =====
-- polymarket-cpp, the trading SDK: its arithmetic, its transports and its requests.
--
-- The program has two layers. net/ holds the transports: a bounded queue of frames
-- (net/ws_write_queue.hpp), a socket client that reconnects (net/ws_client.cpp) and writes from
-- that queue, and an HTTPS client with two retry loops (net/http_client.cpp). pm/ holds the SDK:
-- amounts of orders (pm/amounts.cpp), hexadecimal text (pm/keys.cpp), market identities
-- (pm/protocol.cpp), account queries (pm/account_rest.cpp), public queries (pm/public_rest.cpp),
-- the eligibility check (pm/geoblock.cpp), keys, order digests and headers (pm/keys.cpp,
-- pm/signing.cpp, pm/auth.cpp, pm/codec.cpp), the order client (pm/clob.cpp), which prices, signs
-- and posts orders through the HTTPS client, deposit wallets and their relayer
-- (pm/deposit_wallet.cpp, pm/deposit_wallet_rpc.cpp, pm/relayer.cpp), and the three feeds on top of
-- the socket client (pm/market_ws.cpp, pm/user_ws.cpp, pm/rtds.cpp).
--
-- Prelude: Boolean tests, lists, integers, text and decimal digits over the native numbers, and C++
--   exceptions as values.
-- Net/WriteQueue: WsWriteQueue, one function for each member; a shared_ptr is an address with the
--   text.
-- Net/WsClient: State has the members of WsClient and the calls into Asio and Beast, recorded in
--   order; Handlers has one function for each function and each completion handler on the strand;
--   Events dispatches. A timer event may come at any time, also after a cancel. A handler of the
--   opening or of a message is the list of calls that it makes back into the client: start, stop,
--   kick and send_first. In Reachable a completion that carries the
--   current generation is taken to be for the stream in place; Fresh, Generations, CallSteps,
--   Origins and Runs derive this for completions of operations that were begun, as long as the
--   counter of generations, which wraps at 2 ^ 64, does not wrap. Stopping is
--   about what can come after a stop. Live and NeverIdle say what keeps a started client going, for
--   any events at all.
-- Net/HttpClient: Url is parse_https_url; Requests is HttpsClient, where what the transport answers
--   to each try is a parameter. The loop of request is a recursion on the retries that are left,
--   and that of request_once is unrolled, since its second round never goes on.
-- Pm/Decimal: decimal, scaled, token_units, power10 and divide_down of pm/amounts.cpp; the decimal
--   loop works on the text of std::to_chars.
-- Pm/Double, Pm/U256: what the program uses of double, of its text and of izan::units::U256 (not
--   part of the repository), as parameters with their documented laws. Pm/Tests/Libraries has an
--   instance of each.
-- Pm/Amounts: the amount functions. The specification is the exact rational value of the decimal
--   that a double is written as, rounded once.
-- Pm/Crypto: keccak256, the EIP-712 words of izan-crypto, secp256k1, HMAC and base64, as a
--   parameter with their documented laws; Pm/Tests/Crypto has an instance. No law says that the
--   hash has no collision: theorems about what a digest binds end in equal contents or a collision
--   at hand.
-- Pm/Hex, Pm/Keys, Pm/Auth: texts of bytes, PrivKey, base64 and the two header sets; a key is its
--   bytes.
-- Pm/Signing: the digest of an order, its domain and its ERC-1271 wrapping. Encodings and Binding
--   are what a digest fixes, Wrapped how a contract takes a wrapped signature apart.
-- Pm/Protocol, Pm/AccountRest, Pm/PublicRest, Pm/Geoblock: identities and queries. A transport that
--   is a std::function is a function over a state of its own; in Geoblock it is the HTTPS client.
--   Spellings and Conditions are the conditions of positions_v2_target; its std::set of strings is
--   the list of those that were inserted.
-- Pm/DepositWallet: CREATE2 addresses and batches of calls; Pm/DepositRpc: which wallet an owner
--   has, over any JSON-RPC callback and over the HTTPS client. Refinement states the policy against
--   a chain.
-- Pm/Relayer: the texts, headers and calls of RelayerClient, over the HTTPS client or a transport
--   of the caller. Of a JSON value only what the code looks at is kept.
-- Pm/Clob: the order client over Net/HttpClient; Session is its state, constructor and credentials,
--   Queries, ServerTime and Orders have one function for each member. It signs by Pm/Signing and
--   takes its headers from Pm/Auth; JSON, clock and random words are the parameter ClobLibrary.
--   prepare_order is cut into the steps behind each of its requests. Says is what a prepared order is
--   to say, Preparing and Sending are about prepare_order and the posting of orders. The two HTTPS
--   clients number their tries separately.
-- Pm/Feeds: MarketWs, UserWs and Rtds have one function for each member and callback of the three
--   feeds, with the frames as values, whose text glaze writes. Delta and Session are about the
--   server's subscriptions, for connections whose initial frame is written first: a full message on
--   a live connection has no effect. Opening is UserWs over Net/WsClient. The mutex of a feed makes
--   each of its critical sections one step; the two frames of one change are not separated.
--
-- Not modelled: the cryptography of izan-crypto, trezor-crypto and libsodium, JSON texts that glaze
-- writes, TLS set-up, logging, calls that the log handler, the failure policy or the completion of
-- stop of a WsClient make back into it, the order of the two threads within one change of a feed,
-- and the shared runtime of HTTPS clients with its race of the resolver and its timer.
pub mod Prelude
pub mod Net
pub mod Pm
