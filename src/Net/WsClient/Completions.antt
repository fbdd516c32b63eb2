-- ===== src/Net/WsClient/Completions.antt =====
-- The completions of `WsClient`, and so every event, preserve what holds between two handlers.
use polymarket_cpp.Prelude.{
  ℕ, ◌≡◌, refl, ap, ◌∙◌, subst, false, ◌&&◌, ◌||◌, not, Option, none, some, List, [], ◌∷◌, Bytes,
  arith, All, ◌==◌, if◌then◌else◌, if_case,
}
use polymarket_cpp.Net.WriteQueue.{
  Payload, discard_stale_call, complete_call, run_call, discard_stale_connection_writes,
}
use polymarket_cpp.Net.WriteQueue.Bounds.{run_call-IsValid}
use polymarket_cpp.Net.WriteQueue.Retained.{IsCurrent, complete-IsCurrent, discard_stale-IsCurrent}
use polymarket_cpp.Net.WsClient.State.{
  SocketError, Stage, resolve, connect, tls_handshake, ws_handshake, Environment, WsClient,
  Dispatched, start_now, stop_now, kick_now, send_first_now, emit, begin_read,
}
use polymarket_cpp.Net.WsClient.Handlers.{
  schedule_keepalive, run_dispatched, run_all_dispatched, run_on_open, run_on_message, came_up,
  read_on, write_waiting, opened, stage_succeeded, stage_done, read_done, write_done,
}
use polymarket_cpp.Net.WsClient.Events.{
  Event, start_event, kick_event, stop_event, send_event, send_first_event, stage_timer_event,
  reconnect_timer_event, keepalive_timer_event, stage_event, read_event, write_event, handle,
}
use polymarket_cpp.Net.WsClient.Invariant.{
  IsValidClient, effects-IsValidClient, queue-IsValidClient, stop-IsValidClient,
  do_write-IsValidClient, send-IsValidClient, send_first-IsValidClient,
}
use polymarket_cpp.Net.WsClient.Preserved.{
  OwnStream, Admissible, unarmed_by, running_by, write_waiting-IsValidClient, kick-IsValidClient,
  fail-IsValidClient, stage_deadline-IsValidClient, reconnect_due-IsValidClient,
  keepalive_due-IsValidClient, do_connect-IsValidClient, schedule_keepalive-IsValidClient,
}

module _ (env : Environment) where
  run_dispatched-IsValidClient :
      (c : Dispatched) (s : WsClient) → IsValidClient s → IsValidClient (run_dispatched env c s)
  unfolding run_dispatched
  run_dispatched-IsValidClient stop_now s v = stop-IsValidClient false s v.backoff v.queue
  run_dispatched-IsValidClient kick_now s v = kick-IsValidClient env s v
  run_dispatched-IsValidClient start_now s v = do_connect-IsValidClient env s v
  run_dispatched-IsValidClient (send_first_now text) s v = send_first-IsValidClient text s v

  run_all_dispatched-IsValidClient :
      (cs : List Dispatched) (s : WsClient)
      → IsValidClient s
      → IsValidClient (run_all_dispatched env cs s)
  unfolding run_all_dispatched
  run_all_dispatched-IsValidClient [] s v = v
  run_all_dispatched-IsValidClient (c ∷ cs) s v =
      run_all_dispatched-IsValidClient cs _ (run_dispatched-IsValidClient c s v)

  run_on_open-IsValidClient : (s : WsClient) → IsValidClient s → IsValidClient (run_on_open env s)
  unfolding run_on_open
  run_on_open-IsValidClient s v =
      if_case IsValidClient s.has_handlers
        (λ _. run_all_dispatched-IsValidClient env.open_calls _ (effects-IsValidClient s _ v))
        (λ _. v)

  run_on_message-IsValidClient :
      (text : Bytes) (s : WsClient) → IsValidClient s → IsValidClient (run_on_message env text s)
  unfolding run_on_message
  run_on_message-IsValidClient text s v =
      if_case IsValidClient s.has_handlers
        (λ _.
          run_all_dispatched-IsValidClient (env.message_calls text) _ (effects-IsValidClient s _ v))
        (λ _. v)

  came_up-IsValidClient :
      (g : ℕ) (s : WsClient)
      → IsValidClient s
      → g ≡ s.generation
      → s.socket ≡ some g
      → IsValidClient (came_up env g s)
  unfolding run_call
  came_up-IsValidClient g s v same socket = record {
    retired = λ h. let k = running_by s v socket in absurd (cc);
    alive = λ _. (
      socket ∙ ap some same,
      unarmed_by s v socket,
      subst (λ x. All (IsCurrent x) (discard_stale_connection_writes g s.write_queue).entries) same
          (discard_stale-IsCurrent g s.write_queue),
    );
    waiting = λ h. let k = unarmed_by s v socket in absurd (cc);
    writes = λ _. refl;
    backoff = v.backoff;
    queue = run_call-IsValid (discard_stale_call g) s.write_queue v.queue;
  }

  opened-IsValidClient :
      (g : ℕ) (s : WsClient)
      → IsValidClient s
      → g ≡ s.generation
      → s.socket ≡ some g
      → IsValidClient (opened env g s)
  unfolding opened
  opened-IsValidClient g s v same socket =
      let up = run_on_open-IsValidClient _ (came_up-IsValidClient g s v same socket) in
      settled_up (run_on_open env (came_up env g s)) up
    where
      settled_up :
          (t : WsClient)
          → IsValidClient t
          → IsValidClient (
              if t.stopped || not (g == t.generation)
              then t
              else emit (begin_read g) (schedule_keepalive env (write_waiting g t)))
      settled_up t w =
          if_case IsValidClient (t.stopped || not (g == t.generation)) (λ _. w)
            (λ _.
              effects-IsValidClient (schedule_keepalive env (write_waiting g t)) _
                (schedule_keepalive-IsValidClient env _ (write_waiting-IsValidClient g t w)))

  stage_succeeded-IsValidClient :
      (stage : Stage) (g : ℕ) (s : WsClient)
      → IsValidClient s
      → g ≡ s.generation
      → s.socket ≡ some g
      → IsValidClient (stage_succeeded env stage g s)
  unfolding stage_succeeded
  stage_succeeded-IsValidClient resolve g s v same socket = effects-IsValidClient s _ v
  stage_succeeded-IsValidClient connect g s v same socket = effects-IsValidClient s _ v
  stage_succeeded-IsValidClient tls_handshake g s v same socket = effects-IsValidClient s _ v
  stage_succeeded-IsValidClient ws_handshake g s v same socket =
      opened-IsValidClient g s v same socket

  stage_done-IsValidClient :
      (stage : Stage) (g : ℕ) (ec : Option SocketError) (s : WsClient)
      → IsValidClient s
      → OwnStream g s
      → IsValidClient (stage_done env stage g ec s)
  unfolding stage_done
  stage_done-IsValidClient stage g (some e) s v own =
      if_case IsValidClient (not (g == s.generation)) (λ _. v)
        (λ _. fail-IsValidClient env e g s v own)
  stage_done-IsValidClient stage g none s v own =
      if_case IsValidClient (not (g == s.generation)) (λ _. v)
        (λ h.
          let same : g ≡ s.generation = ground arith in
          stage_succeeded-IsValidClient stage g s v same (own same))

  read_on-IsValidClient : (g : ℕ) (s : WsClient) → IsValidClient s → IsValidClient (read_on env g s)
  read_on-IsValidClient g s v =
      if_case IsValidClient (not s.stopped && g == s.generation) (λ _. effects-IsValidClient s _ v)
        (λ _. v)

  read_done-IsValidClient :
      (g : ℕ) (text : Bytes) (ec : Option SocketError) (s : WsClient)
      → IsValidClient s
      → OwnStream g s
      → IsValidClient (read_done env g text ec s)
  unfolding read_done
  read_done-IsValidClient g text (some e) s v own =
      if_case IsValidClient (not (g == s.generation)) (λ _. v)
        (λ _. fail-IsValidClient env e g s v own)
  read_done-IsValidClient g text none s v own =
      if_case IsValidClient (not (g == s.generation)) (λ _. v)
        (λ _.
          let next =
            run_on_message-IsValidClient text (record s { reconnect_delay_ms = 500 })
              (record {
                retired = v.retired;
                alive = v.alive;
                waiting = v.waiting;
                writes = v.writes;
                backoff = omega arith;
                queue = v.queue;
              }) in
          read_on-IsValidClient g _ next)

  write_done-IsValidClient :
      (g : ℕ) (p : Payload) (ec : Option SocketError) (s : WsClient)
      → IsValidClient s
      → OwnStream g s
      → IsValidClient (write_done env g p ec s)
  unfolding write_done run_call
  write_done-IsValidClient g p (some e) s v own =
      if_case IsValidClient (not (g == s.generation)) (λ _. v)
        (λ _. fail-IsValidClient env e g s v own)
  write_done-IsValidClient g p none s v own =
      if_case IsValidClient (not (g == s.generation)) (λ _. v)
        (λ _. do_write-IsValidClient g _ (
          queue-IsValidClient s _ v (run_call-IsValid (complete_call p) s.write_queue v.queue)
            (λ k. complete-IsCurrent p s.generation s.write_queue k)))

  -- Every event that the strand can run, whatever the two handlers call back and the policy gives, keeps the client valid: a
  -- stopped client has no stream, is not connected and has no reconnect armed; a connected one has the
  -- stream of its own generation, no reconnect armed and no frame of another connection in its queue; a
  -- write is in flight only while connected; the backoff is between 500 and 30000 ms; the queue is
  -- valid. A completion is taken to be for the stream in place where it carries the current generation.
  pub handle-IsValidClient :
      (e : Event) (s : WsClient) → IsValidClient s → Admissible e s → IsValidClient (handle env e s)
  unfolding handle
  handle-IsValidClient start_event s v a = do_connect-IsValidClient env s v
  handle-IsValidClient kick_event s v a = kick-IsValidClient env s v
  handle-IsValidClient (stop_event c) s v a = stop-IsValidClient c s v.backoff v.queue
  handle-IsValidClient (send_event text) s v a = send-IsValidClient text s v
  handle-IsValidClient (send_first_event text) s v a = send_first-IsValidClient text s v
  handle-IsValidClient (stage_timer_event g ec) s v a = stage_deadline-IsValidClient env g ec s v a
  handle-IsValidClient (reconnect_timer_event ec) s v a = reconnect_due-IsValidClient env ec s v
  handle-IsValidClient (keepalive_timer_event ec) s v a = keepalive_due-IsValidClient env ec s v
  handle-IsValidClient (stage_event stage g ec) s v a = stage_done-IsValidClient stage g ec s v a
  handle-IsValidClient (read_event g text ec) s v a = read_done-IsValidClient g text ec s v a
  handle-IsValidClient (write_event g p ec) s v a = write_done-IsValidClient g p ec s v a
