-- ===== src/Net/WsClient/CallSteps.antt =====
-- The calls, the timers and the connect of `WsClient` keep operations on their streams.
use polymarket_cpp.Prelude.{
  ℕ, suc, ◌+◌, ◌^◌, ◌<◌, ◌≡◌, refl, ap, ◌∙◌, Bool, true, false, ◌&&◌, ◌||◌, not, none, some, List,
  [], ◌∷◌, String, arith, ◌==◌, if_case,
}
use polymarket_cpp.Net.WriteQueue.{WsWriteQueue, push_connection}
use polymarket_cpp.Net.WsClient.State.{
  cancel_stage_timer, SocketError, Effect, resolve, begin_stage, wait_stage_timer, Dispatched,
  start_now, stop_now, kick_now, send_first_now, Environment, WsClient, next_generation, close_of,
  is_none, log, emit, no_failure,
}
use polymarket_cpp.Net.WsClient.Handlers.{
  schedule_reconnect, kick, fail, failure_of, do_connect, stage_deadline, reconnect_due,
  write_unless_writing, schedule_keepalive, keepalive_pushed, keepalive_due, run_dispatched,
  run_all_dispatched,
}
use polymarket_cpp.Net.WsClient.Fresh.{
  owned, own_all, IsFresh, own_all_later, own_all_close, next_generation_lem,
  schedule_reconnect-IsPast,
}
use polymarket_cpp.Net.WsClient.Generations.{
  Step, unchanged, then_step, climbed, own_all-log, own_all_past, stop-Step, queued, logged,
  write_unless_writing-Step, send_first-Step, cost, widen,
}

module _ (env : Environment) where
  pub kick-Step : (s : WsClient) → IsFresh s → s.generation + 2 < 2 ^ 64 → Step 2 s (kick env s)
  unfolding kick
  kick-Step s v h =
      if_case (Step 2 s) (is_none s.socket || s.stopped || not s.connected) (λ _. unchanged 2 s v)
        (λ _.
          let next = next_generation_lem s.generation (omega arith) in
          climbed 1 1 s _ _ (omega (arith, next)) (omega (arith, next)) (
            schedule_reconnect-IsPast env no_failure _ (record { operations = closed; down = refl })
              (omega (arith, next))))
    where
      logged : List Effect
      logged = cancel_stage_timer ∷ (log "kicked, forcing reconnect" s).effects

      closed : own_all (next_generation s.generation) none (close_of s.socket logged) ≡ true
      closed =
          own_all_close (next_generation s.generation) none s.socket logged
          ∙ own_all-log (next_generation s.generation) none "kicked, forcing reconnect" s
          ∙ own_all_past s v (omega arith)

  pub fail-Step :
      (e : SocketError) (g : ℕ) (s : WsClient)
      → IsFresh s
      → s.generation + 2 < 2 ^ 64
      → Step 2 s (fail env e g s)
  unfolding fail
  fail-Step e g s v h =
      if_case (Step 2 s) (s.stopped || not (g == s.generation)) (λ _. unchanged 2 s v)
        (λ _.
          let next = next_generation_lem s.generation (omega arith) in
          climbed 1 1 s _ _ (omega (arith, next)) (omega (arith, next)) (
            schedule_reconnect-IsPast env (failure_of e s.socket) _
              (record { operations = logged; down = refl }) (omega (arith, next))))
    where
      logged :
          own_all
            (next_generation s.generation)
            none
            (log "failed" (emit cancel_stage_timer s)).effects
          ≡ true
      logged =
          own_all-log (next_generation s.generation) none "failed" (emit cancel_stage_timer s)
          ∙ own_all_past s v (omega arith)

  pub stage_deadline-Step :
      (g : ℕ) (ec : Bool) (s : WsClient)
      → IsFresh s
      → s.generation + 2 < 2 ^ 64
      → Step 2 s (stage_deadline env g ec s)
  unfolding stage_deadline
  stage_deadline-Step g ec s v h =
      if_case (Step 2 s) (ec || s.stopped || not (g == s.generation) || s.connected)
        (λ _. unchanged 2 s v)
        (λ e.
          let next = next_generation_lem s.generation (omega arith) in
          climbed 1 1 s _ _ (omega (arith, next)) (omega (arith, next)) (
            schedule_reconnect-IsPast env no_failure _
              (record {
                operations = logged;
                down = last_false ec s.stopped (not (g == s.generation)) s.connected e;
              })
              (omega (arith, next))))
    where
      logged :
          own_all
            (next_generation s.generation)
            none
            (log "connect stage deadline exceeded" s).effects
          ≡ true
      logged =
          own_all-log (next_generation s.generation) none "connect stage deadline exceeded" s
          ∙ own_all_past s v (omega arith)

      last_false : (a b c d : Bool) → (a || b || c || d) ≡ false → d ≡ false
      last_false a b c d h = ground arith

  pub do_connect-Step :
      (s : WsClient) → IsFresh s → s.generation + 3 < 2 ^ 64 → Step 3 s (do_connect env s)
  unfolding do_connect
  do_connect-Step s v h =
      if_case (Step 3 s) s.stopped (λ _. unchanged 3 s v)
        (λ _.
          if_case (Step 3 s) (not (env.sni_setup g)) (λ _. refused "SNI setup failed")
            (λ _.
              if_case (Step 3 s) (not (env.hostname_setup g))
                (λ _. refused "TLS hostname verification setup failed")
                (λ _. record {
                  fresh = record { operations = begun; up = λ e. absurd (ground arith) };
                  within = record { least = omega (arith, next); most = omega (arith, next) };
                  same = λ e. absurd (omega (arith, next));
                })))
    where
      g : ℕ
      g = next_generation s.generation

      next : next_generation s.generation ≡ suc s.generation
      next = next_generation_lem s.generation (omega arith)

      after : next_generation (next_generation s.generation) ≡ suc (suc s.generation)
      after = next_generation_lem g (omega (arith, next)) ∙ ap suc next

      made : WsClient
      made = record s {
        reconnect_scheduled = false;
        connected = false;
        writing = false;
        generation = g;
        socket = some g;
      }

      refused :
          (text : String)
          → Step 3 s (
              schedule_reconnect env no_failure
                (record (log text made) { generation = next_generation g }))
      refused text =
          climbed 2 1 s (record (log text made) { generation = next_generation g }) _
            (omega (arith, after)) (omega (arith, after))
            (schedule_reconnect-IsPast env no_failure
              (record (log text made) { generation = next_generation g })
              (record {
                operations =
                    own_all-log (next_generation g) none text made
                    ∙ own_all_later s.generation (next_generation g) s.socket none s.effects
                        (omega (arith, after)) v.operations;
                down = refl;
              })
              (omega (arith, after)))

      own_now :
          (n : ℕ) (b : Bool) → b ≡ true → (owned n (some n) n && (owned n (some n) n && b)) ≡ true
      own_now n b e = ground arith

      begun : own_all g (some g) (begin_stage resolve g ∷ wait_stage_timer g ∷ s.effects) ≡ true
      begun = own_now g (own_all g (some g) s.effects) (
          own_all_later s.generation g s.socket (some g) s.effects (omega (arith, next))
            v.operations)

  pub reconnect_due-Step :
      (ec : Bool) (s : WsClient)
      → IsFresh s
      → s.generation + 3 < 2 ^ 64
      → Step 3 s (reconnect_due env ec s)
  unfolding reconnect_due
  reconnect_due-Step ec s v h =
      if_case (Step 3 s) (ec || s.stopped) (λ _. unchanged 3 s v)
        (λ _.
          let d =
            do_connect-Step (record s { reconnect_scheduled = false })
              (record { operations = v.operations; up = v.up }) h in
          record {
            fresh = d.fresh;
            within = record { least = d.within.least; most = d.within.most };
            same = d.same;
          })

  pub schedule_keepalive-Step : (s : WsClient) → IsFresh s → Step 0 s (schedule_keepalive env s)
  schedule_keepalive-Step s v =
      if_case (Step 0 s) (env.keepalive_interval == 0) (λ _. unchanged 0 s v)
        (λ _. record {
          fresh = record { operations = v.operations; up = v.up };
          within = record { least = omega arith; most = omega arith };
          same = λ e. refl;
        })

  keepalive_pushed-Step :
      (s : WsClient) (r : WsWriteQueue × Bool) → IsFresh s → Step 0 s (keepalive_pushed env s r)
  keepalive_pushed-Step s (q, true) v = queued q s v
  keepalive_pushed-Step s (q, false) v =
      let a = queued q s v in
      then_step 0 0 s _ _ a (
        logged "bounded write queue full; keepalive skipped" (record s { write_queue = q }) a.fresh)

  pub keepalive_due-Step :
      (ec : Bool) (s : WsClient) → IsFresh s → Step 0 s (keepalive_due env ec s)
  unfolding keepalive_due
  keepalive_due-Step ec s v =
      if_case (Step 0 s) (ec || s.stopped || not s.connected) (λ _. unchanged 0 s v)
        (λ _.
          let r = push_connection env.keepalive_text s.generation false s.write_queue in
          let a = keepalive_pushed-Step s r v in
          let b = write_unless_writing-Step (keepalive_pushed env s r) a.fresh in
          let c =
            schedule_keepalive-Step (write_unless_writing (keepalive_pushed env s r)) b.fresh in
          then_step 0 0 s (keepalive_pushed env s r) _ a (
            then_step 0 0 (keepalive_pushed env s r)
              (write_unless_writing (keepalive_pushed env s r)) _ b c))

  run_dispatched-Step :
      (c : Dispatched) (s : WsClient)
      → IsFresh s
      → s.generation + 3 < 2 ^ 64
      → Step 3 s (run_dispatched env c s)
  unfolding run_dispatched
  run_dispatched-Step stop_now s v h =
      widen 1 3 s _ (omega arith) (stop-Step false s v (omega arith))
  run_dispatched-Step kick_now s v h = widen 2 3 s _ (omega arith) (kick-Step s v (omega arith))
  run_dispatched-Step start_now s v h = do_connect-Step s v h
  run_dispatched-Step (send_first_now text) s v h =
      widen 0 3 s _ (omega arith) (send_first-Step text s v)

  pub run_all_dispatched-Step :
      (cs : List Dispatched) (s : WsClient)
      → IsFresh s
      → s.generation + cost cs < 2 ^ 64
      → Step (cost cs) s (run_all_dispatched env cs s)
  unfolding run_all_dispatched
  run_all_dispatched-Step [] s v h = unchanged 0 s v
  run_all_dispatched-Step (c ∷ cs) s v h =
      let a = run_dispatched-Step c s v (omega arith) in
      let w = a.within.most in
      then_step 3 (cost cs) s (run_dispatched env c s) _ a
        (run_all_dispatched-Step cs (run_dispatched env c s) a.fresh (omega arith))
