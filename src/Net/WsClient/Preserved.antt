-- ===== src/Net/WsClient/Preserved.antt =====
-- The calls, the timers and the connect of `WsClient` preserve what holds between two handlers.
use polymarket_cpp.Prelude.{
  ℕ, ◌≡◌, refl, Bool, true, false, ◌||◌, not, some, arith, ◌==◌, if_case, Bool-cases, inl, inr,
}
use polymarket_cpp.Net.WriteQueue.{
  WsWriteQueue, push_connection, push_connection_call, discard_connection_call, run_call, empty,
}
use polymarket_cpp.Net.WriteQueue.Bounds.{run_call-IsValid}
use polymarket_cpp.Net.WriteQueue.Retained.{push_connection-IsCurrent}
use polymarket_cpp.Net.WsClient.State.{
  no_failure, SocketError, Environment, WsClient, next_generation, is_none,
}
use polymarket_cpp.Net.WsClient.Handlers.{
  kick, fail, do_connect, stage_deadline, reconnect_due, schedule_keepalive, keepalive_pushed,
  keepalive_due, write_unless_writing, write_waiting,
}
use polymarket_cpp.Net.WsClient.Events.{
  Event, stage_timer_event, stage_event, read_event, write_event,
}
use polymarket_cpp.Net.WsClient.Invariant.{
  IsValidClient, effects-IsValidClient, queue-IsValidClient, schedule_reconnect-IsValidClient,
  do_write-IsValidClient,
}

-- An operation on the stream of the current generation is an operation on the stream in place: the
-- generations of streams do not repeat.
abbrev pub OwnStream : ℕ → WsClient → Type 0
OwnStream g s = g ≡ s.generation → s.socket ≡ some g

abbrev pub Admissible : Event → WsClient → Type 0
Admissible (stage_timer_event g ec) s = OwnStream g s
Admissible (stage_event stage g ec) s = OwnStream g s
Admissible (read_event g text ec) s = OwnStream g s
Admissible (write_event g payload ec) s = OwnStream g s
Admissible _ s = Unit {0}

both_false : (a b : Bool) → (a || b) ≡ false → (a ≡ false) × (b ≡ false)
both_false a b h = ground arith

-- With a stream in place no reconnect is armed.
pub unarmed_by :
    (s : WsClient) {g : ℕ} → IsValidClient s → s.socket ≡ some g → s.reconnect_scheduled ≡ false
unarmed_by s v h = elim (Bool-cases s.reconnect_scheduled) [
  | inr e ↦ e
  | inl e ↦ let k = v.waiting e in absurd (cc)
]

pub running_by : (s : WsClient) {g : ℕ} → IsValidClient s → s.socket ≡ some g → s.stopped ≡ false
running_by s v h = elim (Bool-cases s.stopped) [
  | inr e ↦ e
  | inl e ↦ let k = (v.retired e).2 in absurd (cc)
]

connected_by : (a b c : Bool) → (a || b || not c) ≡ false → (b ≡ false) × (c ≡ true)
connected_by a b c h = ground arith

write_unless_writing-IsValidClient :
    (s : WsClient) → IsValidClient s → IsValidClient (write_unless_writing s)
write_unless_writing-IsValidClient s v =
    if_case IsValidClient s.writing (λ _. v) (λ _. do_write-IsValidClient s.generation s v)

pub write_waiting-IsValidClient :
    (g : ℕ) (s : WsClient) → IsValidClient s → IsValidClient (write_waiting g s)
write_waiting-IsValidClient g s v =
    if_case IsValidClient (empty s.write_queue || s.writing) (λ _. v)
      (λ _. do_write-IsValidClient g s v)

module _ (env : Environment) where
  pub kick-IsValidClient : (s : WsClient) → IsValidClient s → IsValidClient (kick env s)
  unfolding kick run_call
  kick-IsValidClient s v =
      if_case IsValidClient (is_none s.socket || s.stopped || not s.connected) (λ _. v)
        (λ h.
          let (running, up) = connected_by (is_none s.socket) s.stopped s.connected h in
          schedule_reconnect-IsValidClient env no_failure _ (record {
            running = running;
            unarmed = (v.alive up).1;
            down = refl;
            idle = refl;
            delay = v.backoff;
            bounded = run_call-IsValid (discard_connection_call s.generation) s.write_queue v.queue;
          }))

  pub fail-IsValidClient :
      (e : SocketError) (g : ℕ) (s : WsClient)
      → IsValidClient s
      → OwnStream g s
      → IsValidClient (fail env e g s)
  unfolding fail run_call
  fail-IsValidClient e g s v own =
      if_case IsValidClient (s.stopped || not (g == s.generation)) (λ _. v)
        (λ h.
          let (running, same) = both_false s.stopped (not (g == s.generation)) h in
          let socket = own (ground arith) in
          schedule_reconnect-IsValidClient env _ _ (record {
            running = running;
            unarmed = unarmed_by s v socket;
            down = refl;
            idle = refl;
            delay = v.backoff;
            bounded = run_call-IsValid (discard_connection_call g) s.write_queue v.queue;
          }))

  pub do_connect-IsValidClient : (s : WsClient) → IsValidClient s → IsValidClient (do_connect env s)
  unfolding do_connect
  do_connect-IsValidClient s v =
      if_case IsValidClient s.stopped (λ _. v)
        (λ running.
          let g = next_generation s.generation in
          if_case IsValidClient (not (env.sni_setup g))
            (λ _. schedule_reconnect-IsValidClient env no_failure _ (record {
              running = running;
              unarmed = refl;
              down = refl;
              idle = refl;
              delay = v.backoff;
              bounded = v.queue;
            }))
            (λ _.
              if_case IsValidClient (not (env.hostname_setup g))
                (λ _. schedule_reconnect-IsValidClient env no_failure _ (record {
                  running = running;
                  unarmed = refl;
                  down = refl;
                  idle = refl;
                  delay = v.backoff;
                  bounded = v.queue;
                }))
                (λ _. record {
                  retired = λ h. absurd (cc);
                  alive = λ h. absurd (cc);
                  waiting = λ h. absurd (cc);
                  writes = λ h. absurd (cc);
                  backoff = v.backoff;
                  queue = v.queue;
                })))

  pub stage_deadline-IsValidClient :
      (g : ℕ) (ec : Bool) (s : WsClient)
      → IsValidClient s
      → OwnStream g s
      → IsValidClient (stage_deadline env g ec s)
  unfolding stage_deadline
  stage_deadline-IsValidClient g ec s v own =
      if_case IsValidClient (ec || s.stopped || not (g == s.generation) || s.connected) (λ _. v)
        (λ h.
          let (running, same, down) = expired ec s.stopped s.connected (g == s.generation) h in
          schedule_reconnect-IsValidClient env no_failure _ (record {
            running = running;
            unarmed = unarmed_by s v (own (ground arith));
            down = down;
            idle = refl;
            delay = v.backoff;
            bounded = v.queue;
          }))
    where
      expired :
          (a b d c : Bool) → (a || b || not c || d) ≡ false → (b ≡ false) × (c ≡ true) × (d ≡ false)
      expired a b d c h = ground arith

  pub reconnect_due-IsValidClient :
      (ec : Bool) (s : WsClient) → IsValidClient s → IsValidClient (reconnect_due env ec s)
  unfolding reconnect_due
  reconnect_due-IsValidClient ec s v =
      if_case IsValidClient (ec || s.stopped) (λ _. v)
        (λ h.
          let running = (both_false ec s.stopped h).1 in
          do_connect-IsValidClient (record s { reconnect_scheduled = false })
            (record {
              retired = λ k. absurd (cc);
              alive = λ k. let (a, b, c) = v.alive k in (a, refl, c);
              waiting = λ k. absurd (cc);
              writes = v.writes;
              backoff = v.backoff;
              queue = v.queue;
            }))

  pub schedule_keepalive-IsValidClient :
      (s : WsClient) → IsValidClient s → IsValidClient (schedule_keepalive env s)
  schedule_keepalive-IsValidClient s v =
      if_case IsValidClient (env.keepalive_interval == 0) (λ _. v)
        (λ _. effects-IsValidClient s _ v)

  keepalive_pushed-IsValidClient :
      (s : WsClient) (r : WsWriteQueue × Bool)
      → IsValidClient (record s { write_queue = r.0 })
      → IsValidClient (keepalive_pushed env s r)
  keepalive_pushed-IsValidClient s (q, true) v = v
  keepalive_pushed-IsValidClient s (q, false) v =
      effects-IsValidClient (record s { write_queue = q }) _ v

  pub keepalive_due-IsValidClient :
      (ec : Bool) (s : WsClient) → IsValidClient s → IsValidClient (keepalive_due env ec s)
  unfolding keepalive_due run_call
  keepalive_due-IsValidClient ec s v =
      if_case IsValidClient (ec || s.stopped || not s.connected) (λ _. v)
        (λ h.
          let next =
            keepalive_pushed-IsValidClient s
              (push_connection env.keepalive_text s.generation false s.write_queue)
              (queue-IsValidClient s _ v
                (run_call-IsValid (push_connection_call env.keepalive_text s.generation false)
                  s.write_queue v.queue)
                (λ _.
                  push_connection-IsCurrent env.keepalive_text s.generation false s.write_queue)) in
          schedule_keepalive-IsValidClient _ (write_unless_writing-IsValidClient _ next))
