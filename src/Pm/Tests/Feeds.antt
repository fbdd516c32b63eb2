-- ===== src/Pm/Tests/Feeds.antt =====
-- The theorems about the feeds applied to concrete sessions, and a frame that outlives its connection.
use polymarket_cpp.Prelude.{
  ◌≡◌, refl, true, false, none, some, List, [], ◌∷◌, ◌++◌, Bytes, codes, pos, arith,
}
use polymarket_cpp.Net.WriteQueue.{
  Payload, front_payload, push_retained, push_connection, add_connection, discard_connection_writes,
  discard_stale_connection_writes, complete, erase_address,
}
use polymarket_cpp.Net.WriteQueue.Bounds.{retained}
use polymarket_cpp.Net.WsClient.State.{
  SocketError, Environment, WsClient, new_client, ws_handshake, cancel_stage_timer, call_on_log,
  call_on_open, begin_write, begin_read, wait_keepalive_timer,
}
use polymarket_cpp.Net.WsClient.Handlers.{
  do_connect, send, stage_done, stage_succeeded, opened, run_on_open, run_all_dispatched,
  run_dispatched, send_first, do_write, fail, failure_of, schedule_reconnect, by_policy,
  arm_reconnect, reconnect_due, read_done, write_done,
}
use polymarket_cpp.Net.WsClient.Events.{
  handle, handle_all, start_event, stage_event, send_event, read_event, write_event,
  reconnect_timer_event,
}
use polymarket_cpp.Net.WsClient.Reachable.{created, handled, Reachable-IsValidClient}
use polymarket_cpp.Pm.Feeds.{
  missing, Frame, market_initial, subscribe_op, unsubscribe_op, user_initial, action, Subscriptions,
}
use polymarket_cpp.Pm.Feeds.MarketWs.{delta, subscribe, send_initial}
use polymarket_cpp.Pm.Feeds.UserWs.{UserWs, environment, on_open, send_initial as user_send_initial}
use polymarket_cpp.Pm.Feeds.Delta.{fresh_server, serve_all}
use polymarket_cpp.Pm.Feeds.Opening.{handle-AuthenticatesFirst}

abbrev known : Subscriptions
known = record { desired = codes "a" ∷ []; active = codes "b" ∷ [] }

abbrev user : UserWs
user = record {
  creds = record { api_key = codes "key"; secret = codes "s"; passphrase = codes "p" };
  subscriptions = known;
  raw_handler = true;
  open_handler = false;
}

abbrev early : List (List Bytes)
early = (codes "b" ∷ codes "c" ∷ []) ∷ (codes "d" ∷ []) ∷ []

abbrev late : List (List Bytes)
late = (codes "a" ∷ codes "d" ∷ []) ∷ []

-- Frames of the market feed that another thread hands over before the initial one: it has no effect then, and
-- the server lacks what was desired all along and is active now.
overtaken :
    let early =
      subscribe true
        (codes "b" ∷ codes "c" ∷ [])
        (record { desired = codes "b" ∷ []; active = codes "b" ∷ [] }) in
    let opened = send_initial early.0 in
    ((serve_all (early.1 ++ opened.1) fresh_server).has (codes "b") ≡ false)
    × (opened.0.active ≡ codes "b" ∷ codes "c" ∷ [])
unfolding send_initial subscribe delta missing
overtaken = (refl, refl)

-- A text for each kind of frame.
abbrev text : Frame → Bytes
text (market_initial ids) = codes "market"
text (user_initial creds ids) = codes "auth " ++ creds.api_key
text (subscribe_op ids) = codes "subscribe"
text (unsubscribe_op ids) = codes "unsubscribe"
text (action t) = t

abbrev plain : Environment
plain = record {
  host_hash = 17;
  keepalive_interval = 0;
  keepalive_text = [];
  open_calls = [];
  message_calls = λ t. [];
  failure_policy = some (λ f. some (pos 0));
  sni_setup = λ g. true;
  hostname_setup = λ g. true;
}

abbrev waiting : WsClient
waiting = handle plain (send_event (codes "old")) (handle plain start_event new_client)

handle-AuthenticatesFirst_example :
    let up = handle (environment text user plain) (stage_event ws_handshake 1 none) waiting in
    (p : Payload) × (p.text ≡ text (user_initial user.creds user.subscriptions.desired))
    × (up.effects
        ≡ begin_read 1
          ∷ wait_keepalive_timer 10000
          ∷ begin_write 1 p
          ∷ call_on_open
          ∷ call_on_log "connected"
          ∷ cancel_stage_timer
          ∷ waiting.effects)
    × (front_payload up.write_queue ≡ some p)
    × (up.writing ≡ true)
    × (retained up.write_queue ≡ retained waiting.write_queue)
unfolding handle do_connect send push_retained on_open
handle-AuthenticatesFirst_example =
    handle-AuthenticatesFirst text user plain 1 waiting
      (Reachable-IsValidClient plain waiting
        (handled (send_event (codes "old")) (handled start_event created tt) tt))
      refl refl refl refl (omega arith) ((λ e. absurd (ground arith)), tt) refl

abbrev reset : SocketError
reset = record {
  is_message_too_big = false;
  is_buffer_overflow = false;
  is_ssl_category = false;
  is_upgrade_declined = false;
  reason_code = 0;
  response_status = 0;
  response_retry_after = [];
}

-- An `unsubscribe` that still waits when the connection drops is written on the next one, behind the frame
-- that has subscribed the same market again.
abbrev dropped : WsClient
dropped =
    handle_all (environment text user plain)
      (start_event
        ∷ stage_event ws_handshake 1 none
        ∷ send_event (text (unsubscribe_op (codes "a" ∷ [])))
        ∷ read_event 1 [] (some reset)
        ∷ reconnect_timer_event false
        ∷ stage_event ws_handshake 3 none
        ∷ write_event 3 (record { address = 2; text = codes "auth key" }) none
        ∷ [])
      new_client

stale_unsubscribe :
    (dropped.generation ≡ 3)
    × (dropped.writing ≡ true)
    × (front_payload dropped.write_queue
        ≡ some (record { address = 1; text = codes "unsubscribe" }))
unfolding handle_all handle do_connect stage_done stage_succeeded opened run_on_open
    run_all_dispatched run_dispatched send send_first do_write push_retained push_connection
    add_connection discard_stale_connection_writes discard_connection_writes complete erase_address
    front_payload fail failure_of schedule_reconnect by_policy arm_reconnect reconnect_due read_done
    write_done environment on_open user_send_initial
stale_unsubscribe = (refl, refl, refl)
