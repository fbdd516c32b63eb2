-- ===== src/Net/WsClient/Events.antt =====
-- The events of the strand, one handler each.
use polymarket_cpp.Prelude.{ℕ, Bool, Option, List, [], ◌∷◌, Bytes}
use polymarket_cpp.Net.WriteQueue.{Payload}
use polymarket_cpp.Net.WsClient.State.{SocketError, Stage, Environment, WsClient}
use polymarket_cpp.Net.WsClient.Handlers.{
  stop, kick, send, send_first, do_connect, stage_deadline, reconnect_due, keepalive_due,
  stage_done, read_done, write_done,
}

-- A timer event carries whether its wait was aborted; a wait that has expired already is not aborted
-- by a later `cancel`, so a timer event may come at any time.
pub data Event : Type 0 where
  start_event kick_event : Event
  stop_event : Bool → Event
  send_event send_first_event : Bytes → Event
  stage_timer_event : ℕ → Bool → Event
  reconnect_timer_event keepalive_timer_event : Bool → Event
  stage_event : Stage → ℕ → Option SocketError → Event
  read_event : ℕ → Bytes → Option SocketError → Event
  write_event : ℕ → Payload → Option SocketError → Event

module _ (env : Environment) where
  unfoldable pub handle : Event → WsClient → WsClient
  handle start_event s = do_connect env s
  handle kick_event s = kick env s
  handle (stop_event completion) s = stop completion s
  handle (send_event text) s = send text s
  handle (send_first_event text) s = send_first text s
  handle (stage_timer_event g ec) s = stage_deadline env g ec s
  handle (reconnect_timer_event ec) s = reconnect_due env ec s
  handle (keepalive_timer_event ec) s = keepalive_due env ec s
  handle (stage_event stage g ec) s = stage_done env stage g ec s
  handle (read_event g text ec) s = read_done env g text ec s
  handle (write_event g payload ec) s = write_done env g payload ec s

  unfoldable pub handle_all : List Event → WsClient → WsClient
  handle_all [] s = s
  handle_all (e ∷ es) s = handle_all es (handle e s)
