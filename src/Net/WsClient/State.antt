-- ===== src/Net/WsClient/State.antt =====
-- The state of `WsClient`, and what it asks of Asio and Beast. The calls into them are recorded,
-- newest first, in `effects`; their completions come back as events.
use polymarket_cpp.Prelude.{
  ℕ, zero, suc, ◌+◌, ◌*◌, ◌/◌, ◌%◌, ◌^◌, Bool, true, false, Option, none, some, List, [], ◌∷◌,
  Bytes, String, ℤ, if◌then◌else◌,
}
use polymarket_cpp.Net.WriteQueue.{Payload, WsWriteQueue, default_queue}

pub record WsFailure : Type 0 where
  pub close_code : ℕ
  pub http_status : ℕ
  pub retry_after : Bytes
  pub message_too_big : Bool
  pub tls_protocol_error : Bool

abbrev pub no_failure : WsFailure
no_failure = record {
  close_code = 0;
  http_status = 0;
  retry_after = [];
  message_too_big = false;
  tls_protocol_error = false;
}

-- What `fail` reads of an error code, of the stream's close reason and of the handshake's response.
pub record SocketError : Type 0 where
  pub is_message_too_big : Bool
  pub is_buffer_overflow : Bool
  pub is_ssl_category : Bool
  pub is_upgrade_declined : Bool
  pub reason_code : ℕ
  pub response_status : ℕ
  pub response_retry_after : Bytes

-- The steps of a connect, by the operation that completes.
pub data Stage : Type 0 where
  resolve connect tls_handshake ws_handshake : Stage

-- The calls into the transport and into the application.
pub data Effect : Type 0 where
  cancel_reconnect_timer cancel_keepalive_timer cancel_stage_timer : Effect
  close_socket : ℕ → Effect
  -- An asynchronous operation on the stream of this generation.
  begin_stage : Stage → ℕ → Effect
  begin_read : ℕ → Effect
  begin_write : ℕ → Payload → Effect
  wait_stage_timer : ℕ → Effect
  wait_reconnect_timer : ℤ → Effect
  wait_keepalive_timer : ℕ → Effect
  call_on_open call_completion : Effect
  call_on_message : Bytes → Effect
  call_on_log : String → Effect

-- The calls that a callback can make back into the client on the strand; they run at once.
pub data Dispatched : Type 0 where
  start_now stop_now kick_now : Dispatched
  send_first_now : Bytes → Dispatched

-- What a client is configured with: `std::hash` of host and target, the handlers of the opening and of messages
-- by the calls that they make back, the failure policy if one is set, and what OpenSSL answers to the two
-- setups. The log handler, the failure policy and the completion of `stop` are taken to call nothing back
-- into the client.
pub record Environment : Type 0 where
  pub host_hash : ℕ
  pub keepalive_interval : ℕ
  pub keepalive_text : Bytes
  pub open_calls : List Dispatched
  pub message_calls : Bytes → List Dispatched
  pub failure_policy : Option (WsFailure → Option ℤ)
  pub sni_setup : ℕ → Bool
  pub hostname_setup : ℕ → Bool

-- `socket` is `ws_`, by the generation that its stream was made for; `has_handlers` is whether the
-- callbacks are still set.
pub record WsClient : Type 0 where
  pub socket : Option ℕ
  pub write_queue : WsWriteQueue
  pub writing : Bool
  pub reconnect_delay_ms : ℕ
  pub reconnect_scheduled : Bool
  pub generation : ℕ
  pub connected : Bool
  pub stopped : Bool
  pub has_handlers : Bool
  pub effects : List Effect

abbrev pub new_client : WsClient
new_client = record {
  socket = none;
  write_queue = default_queue;
  writing = false;
  reconnect_delay_ms = 500;
  reconnect_scheduled = false;
  generation = 0;
  connected = false;
  stopped = false;
  has_handlers = true;
  effects = [];
}

-- `++generation_` on `uint64_t`.
abbrev pub next_generation : ℕ → ℕ
next_generation g = (g + 1) % 2 ^ 64

abbrev pub emit : Effect → WsClient → WsClient
emit e s = record s { effects = e ∷ s.effects }

-- `if (on_log_) on_log_(msg);`
abbrev pub log : String → WsClient → WsClient
log text s = record s {
  effects = if s.has_handlers then call_on_log text ∷ s.effects else s.effects;
}

abbrev pub close_of : Option ℕ → List Effect → List Effect
close_of none es = es
close_of (some g) es = close_socket g ∷ es

-- `if (ws_) { close; ws_.reset(); }`
abbrev pub reset_socket : WsClient → WsClient
reset_socket s = record s { socket = none; effects = close_of s.socket s.effects }

-- Bitwise exclusive or, of as many bits as the first argument says.
unfoldable pub xor : ℕ → ℕ → ℕ → ℕ
xor zero a b = 0
xor (suc bits) a b = (a % 2 + b % 2) % 2 + 2 * xor bits (a / 2) (b / 2)

abbrev pub is_none : Option ℕ → Bool
is_none none = true
is_none (some g) = false
