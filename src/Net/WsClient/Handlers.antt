-- ===== src/Net/WsClient/Handlers.antt =====
-- The functions of `WsClient` on the strand.
use polymarket_cpp.Prelude.{
  ℕ, ◌+◌, ◌*◌, ◌/◌, ◌%◌, ◌^◌, min, max, Bool, true, false, ◌&&◌, ◌||◌, not, Option, none, some,
  List, [], ◌∷◌, Bytes, String, ℤ, pos, negsuc, length, ltb, ◌==◌, if◌then◌else◌,
}
use polymarket_cpp.Net.WriteQueue.{
  Payload, WsWriteQueue, push_retained, push_connection, discard_connection_writes,
  discard_stale_connection_writes, front_payload, complete, clear, empty,
}
use polymarket_cpp.Net.WsClient.State.{
  WsFailure, no_failure, SocketError, Stage, resolve, connect, tls_handshake, ws_handshake,
  cancel_reconnect_timer, cancel_keepalive_timer, cancel_stage_timer, close_socket, begin_stage,
  begin_read, begin_write, wait_stage_timer, wait_reconnect_timer, wait_keepalive_timer,
  call_on_open, call_completion, call_on_message, Dispatched, start_now, stop_now, kick_now,
  send_first_now, Environment, WsClient, next_generation, emit, log, reset_socket, close_of,
  is_none, xor,
}

-- `stop`, as it runs on the strand.
unfoldable pub stop : Bool → WsClient → WsClient
stop with_completion s =
    let closed = reset_socket (record s {
      stopped = true;
      connected = false;
      writing = false;
      write_queue = clear s.write_queue;
      generation = next_generation s.generation;
      reconnect_scheduled = false;
      effects = cancel_stage_timer ∷ cancel_keepalive_timer ∷ cancel_reconnect_timer ∷ s.effects;
    }) in
    record closed {
      has_handlers = false;
      effects = if with_completion then call_completion ∷ closed.effects else closed.effects;
    }

-- The window of the jitter, and the jitter of this generation.
unfoldable pub jitter_ms : ℕ → ℕ → ℕ → ℕ
unfolding xor
jitter_ms host_hash generation delay =
    let seed = xor 64 host_hash (generation * 11400714819323198485 % 2 ^ 64) in
    seed % (max 25 (delay / 5) + 1)

-- The delay without a policy.
unfoldable pub backoff_ms : ℕ → ℕ → ℕ → ℕ
unfolding jitter_ms
backoff_ms host_hash generation delay = min 30000 (delay + jitter_ms host_hash generation delay)

-- The part of `schedule_reconnect` behind the policy.
unfoldable pub arm_reconnect : ℤ → WsClient → WsClient
arm_reconnect delay s =
    let closed = reset_socket (record s {
      reconnect_scheduled = true;
      effects = cancel_keepalive_timer ∷ cancel_stage_timer ∷ s.effects;
    }) in
    let logged = log "reconnecting" closed in
    record logged {
      reconnect_delay_ms = min (s.reconnect_delay_ms * 2) 30000;
      effects = wait_reconnect_timer delay ∷ logged.effects;
    }

-- `!policy_delay || policy_delay->count() < 0` retires the client.
unfoldable pub by_policy : Option ℤ → WsClient → WsClient
unfolding stop arm_reconnect
by_policy none s = stop false s
by_policy (some (negsuc n)) s = stop false s
by_policy (some (pos n)) s = arm_reconnect (pos n) s

-- Once the connection is up; what follows `do_write` and its counterparts.
unfoldable pub do_write : ℕ → WsClient → WsClient
do_write generation s =
    if not (generation == s.generation) || empty s.write_queue || not s.connected
    then record s { writing = false }
    else elim (front_payload s.write_queue) [
      | none ↦ record s { writing = false }
      | some payload ↦ record s {
        writing = true;
        effects = begin_write generation payload ∷ s.effects;
      }
    ]

abbrev pub write_if_idle : WsClient → WsClient
write_if_idle s = if s.connected && not s.writing then do_write s.generation s else s

-- `if (!writing_) do_write(ws_, generation_);`
abbrev pub write_unless_writing : WsClient → WsClient
write_unless_writing s = if s.writing then s else do_write s.generation s

-- `if (!write_queue_.empty() && !writing_) do_write(stream, generation);`
abbrev pub write_waiting : ℕ → WsClient → WsClient
write_waiting generation s = if empty s.write_queue || s.writing then s else do_write generation s

-- A push, and what follows where it is refused or accepted.
abbrev pub pushed : String → WsClient → WsWriteQueue × Bool → WsClient
pushed refused s (q, true) = write_if_idle (record s { write_queue = q })
pushed refused s (q, false) = log refused (record s { write_queue = q })

unfoldable pub send : Bytes → WsClient → WsClient
send text s =
    pushed "bounded write queue full; retained message rejected" s
      (push_retained text s.write_queue)

unfoldable pub send_first : Bytes → WsClient → WsClient
send_first text s =
    pushed "bounded write queue full; connection frame rejected" s
      (push_connection text s.generation true s.write_queue)

-- What `fail` tells the policy.
unfoldable pub failure_of : SocketError → Option ℕ → WsFailure
failure_of e socket =
    let close_code : ℕ = elim socket [ none ↦ 0 | some g ↦ e.reason_code ] in
    let too_big = e.is_message_too_big || e.is_buffer_overflow || close_code == 1009 in
    let oversized = ltb 128 (length e.response_retry_after) in
    if e.is_upgrade_declined
    then record {
      close_code = close_code;
      http_status = e.response_status;
      retry_after = if oversized then [] else e.response_retry_after;
      message_too_big = oversized || too_big;
      tls_protocol_error = e.is_ssl_category;
    }
    else record {
      close_code = close_code;
      http_status = 0;
      retry_after = [];
      message_too_big = too_big;
      tls_protocol_error = e.is_ssl_category;
    }

module _ (env : Environment) where
  unfoldable pub schedule_reconnect : WsFailure → WsClient → WsClient
  schedule_reconnect failure s =
      if s.stopped || s.reconnect_scheduled
      then s
      else if s.has_handlers
      then elim env.failure_policy [
        | none ↦ arm_reconnect (pos (backoff_ms env.host_hash s.generation s.reconnect_delay_ms)) s
        | some policy ↦ by_policy (policy failure) s
      ]
      else arm_reconnect (pos (backoff_ms env.host_hash s.generation s.reconnect_delay_ms)) s

  unfoldable pub kick : WsClient → WsClient
  kick s =
      if is_none s.socket || s.stopped || not s.connected
      then s
      else let logged = log "kicked, forcing reconnect" s in
        schedule_reconnect no_failure (record logged {
          connected = false;
          writing = false;
          write_queue = discard_connection_writes s.generation s.write_queue;
          generation = next_generation s.generation;
          effects = close_of s.socket (cancel_stage_timer ∷ logged.effects);
        })

  unfoldable pub fail : SocketError → ℕ → WsClient → WsClient
  fail e generation s =
      if s.stopped || not (generation == s.generation)
      then s
      else let logged = log "failed" (emit cancel_stage_timer s) in
        schedule_reconnect (failure_of e s.socket) (record logged {
          connected = false;
          writing = false;
          write_queue = discard_connection_writes generation s.write_queue;
          generation = next_generation s.generation;
        })

  abbrev setup_failed : String → WsClient → WsClient
  setup_failed text s =
      let logged = log text s in
      schedule_reconnect no_failure
        (record logged { generation = next_generation logged.generation })

  unfoldable pub do_connect : WsClient → WsClient
  do_connect s =
      if s.stopped
      then s
      else let generation = next_generation s.generation in
        let made = record s {
          reconnect_scheduled = false;
          connected = false;
          writing = false;
          generation = generation;
          socket = some generation;
        } in
        if not (env.sni_setup generation)
        then setup_failed "SNI setup failed" made
        else if not (env.hostname_setup generation)
        then setup_failed "TLS hostname verification setup failed" made
        else record made {
          effects = begin_stage resolve generation ∷ wait_stage_timer generation ∷ made.effects;
        }

  -- The handler of `connect_stage_timer_`; `ec` is whether the wait was aborted.
  unfoldable pub stage_deadline : ℕ → Bool → WsClient → WsClient
  stage_deadline generation ec s =
      if ec || s.stopped || not (generation == s.generation) || s.connected
      then s
      else let logged = log "connect stage deadline exceeded" s in
        schedule_reconnect no_failure (record logged {
          writing = false;
          generation = next_generation s.generation;
          effects = close_socket generation ∷ logged.effects;
        })

  -- The handler of `reconnect_timer_`.
  unfoldable pub reconnect_due : Bool → WsClient → WsClient
  reconnect_due ec s =
      if ec || s.stopped then s else do_connect (record s { reconnect_scheduled = false })

  abbrev pub schedule_keepalive : WsClient → WsClient
  schedule_keepalive s =
      if env.keepalive_interval == 0
      then s
      else emit (wait_keepalive_timer env.keepalive_interval) s

  abbrev pub keepalive_pushed : WsClient → WsWriteQueue × Bool → WsClient
  keepalive_pushed s (q, true) = record s { write_queue = q }
  keepalive_pushed s (q, false) =
      log "bounded write queue full; keepalive skipped" (record s { write_queue = q })

  -- The handler of `keepalive_timer_`.
  unfoldable pub keepalive_due : Bool → WsClient → WsClient
  keepalive_due ec s =
      if ec || s.stopped || not s.connected
      then s
      else schedule_keepalive (
          write_unless_writing (
            keepalive_pushed s
              (push_connection env.keepalive_text s.generation false s.write_queue)))

  unfoldable pub run_dispatched : Dispatched → WsClient → WsClient
  run_dispatched stop_now s = stop false s
  run_dispatched kick_now s = kick s
  run_dispatched start_now s = do_connect s
  run_dispatched (send_first_now text) s = send_first text s

  unfoldable pub run_all_dispatched : List Dispatched → WsClient → WsClient
  run_all_dispatched [] s = s
  run_all_dispatched (c ∷ cs) s = run_all_dispatched cs (run_dispatched c s)

  -- `if (on_open_) on_open_();`
  unfoldable pub run_on_open : WsClient → WsClient
  run_on_open s =
      if s.has_handlers then run_all_dispatched env.open_calls (emit call_on_open s) else s

  unfoldable pub run_on_message : Bytes → WsClient → WsClient
  run_on_message text s =
      if s.has_handlers
      then run_all_dispatched (env.message_calls text) (emit (call_on_message text) s)
      else s

  abbrev pub came_up : ℕ → WsClient → WsClient
  came_up generation s =
      let logged = log "connected" (emit cancel_stage_timer s) in
      record logged {
        connected = true;
        write_queue = discard_stale_connection_writes generation s.write_queue;
      }

  -- The handshake has completed.
  unfoldable pub opened : ℕ → WsClient → WsClient
  opened generation s =
      let up = run_on_open (came_up generation s) in
      if up.stopped || not (generation == up.generation)
      then up
      else emit (begin_read generation) (schedule_keepalive (write_waiting generation up))

  -- The next asynchronous operation of a connect.
  unfoldable pub stage_succeeded : Stage → ℕ → WsClient → WsClient
  stage_succeeded resolve generation s = emit (begin_stage connect generation) s
  stage_succeeded connect generation s = emit (begin_stage tls_handshake generation) s
  stage_succeeded tls_handshake generation s = emit (begin_stage ws_handshake generation) s
  stage_succeeded ws_handshake generation s = opened generation s

  -- A completion: of a connect stage, of a read, of a write. `none` is success.
  unfoldable pub stage_done : Stage → ℕ → Option SocketError → WsClient → WsClient
  stage_done stage generation ec s =
      if not (generation == s.generation)
      then s
      else elim ec [ some e ↦ fail e generation s | none ↦ stage_succeeded stage generation s ]

  abbrev pub read_on : ℕ → WsClient → WsClient
  read_on generation s =
      if not s.stopped && generation == s.generation then emit (begin_read generation) s else s

  unfoldable pub read_done : ℕ → Bytes → Option SocketError → WsClient → WsClient
  read_done generation text ec s = if not (generation == s.generation) then s else elim ec [
    | some e ↦ fail e generation s
    | none ↦ read_on generation (run_on_message text (record s { reconnect_delay_ms = 500 }))
  ]

  unfoldable pub write_done : ℕ → Payload → Option SocketError → WsClient → WsClient
  write_done generation payload ec s = if not (generation == s.generation) then s else elim ec [
    | some e ↦ fail e generation s
    | none ↦ do_write generation (record s { write_queue = complete payload s.write_queue })
  ]
