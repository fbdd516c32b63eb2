-- ===== src/Net/WsClient/Origins.antt =====
-- The completions of `WsClient`, its events, and the runs in which every completion is of an operation that
-- was begun.
use polymarket_cpp.Prelude.{
  ℕ, ◌+◌, ◌^◌, ◌<◌, ◌≡◌, refl, sym, ap, ◌∙◌, Bool, true, false, ◌&&◌, ◌||◌, not, Option, none, some,
  Bytes, arith, ◌==◌, if_case,
}
use polymarket_cpp.Net.WriteQueue.{Payload, complete}
use polymarket_cpp.Net.WsClient.State.{
  cancel_stage_timer, call_on_open, call_on_message, SocketError, Stage, resolve, connect,
  tls_handshake, ws_handshake, Effect, begin_stage, begin_read, Environment, WsClient, emit,
}
use polymarket_cpp.Net.WsClient.Handlers.{
  write_waiting, schedule_keepalive, run_on_open, run_on_message, came_up, opened, stage_succeeded,
  stage_done, read_done, write_done,
}
use polymarket_cpp.Net.WsClient.Fresh.{holds, owned, own, own_all, IsFresh}
use polymarket_cpp.Net.WsClient.Generations.{
  Step, unchanged, chain, widen, cost, own_all-log, do_write-Step, write_waiting-Step,
}
use polymarket_cpp.Net.WsClient.CallSteps.{
  fail-Step, schedule_keepalive-Step, run_all_dispatched-Step,
}

both : (a b : Bool) → a ≡ true → b ≡ true → (a && b) ≡ true
both a b h k = ground arith

emitted :
    (e : Effect) (s : WsClient)
    → own s.generation s.socket e ≡ true
    → IsFresh s
    → Step 0 s (emit e s)
emitted e s o v = record {
  fresh = record {
    operations =
        both (own s.generation s.socket e) (own_all s.generation s.socket s.effects) o v.operations;
    up = v.up;
  };
  within = record { least = omega arith; most = omega arith };
  same = λ e. refl;
}

-- The operation of an own stream.
own_here : (n g : ℕ) (k : Option ℕ) → g ≡ n → holds k n ≡ true → owned n k g ≡ true
own_here n g none e h = absurd (ground arith)
own_here n g (some k) e h = ground arith

owned_here : (n g : ℕ) (k : Option ℕ) → owned n k g ≡ true → g ≡ n → holds k n ≡ true
owned_here n g none o e = absurd (ground arith)
owned_here n g (some k) o e = ground arith

same_of : (g n : ℕ) → not (g == n) ≡ false → g ≡ n
same_of g n e = ground arith

module _ (env : Environment) where
  run_on_open-Step :
      (s : WsClient)
      → IsFresh s
      → s.generation + cost env.open_calls < 2 ^ 64
      → Step (cost env.open_calls) s (run_on_open env s)
  unfolding run_on_open
  run_on_open-Step s v h =
      if_case (Step (cost env.open_calls) s) s.has_handlers
        (λ _.
          let a = emitted call_on_open s refl v in
          chain (cost env.open_calls) 0 (cost env.open_calls) s (emit call_on_open s) _
            (omega arith) a
            (run_all_dispatched-Step env env.open_calls (emit call_on_open s) a.fresh h))
        (λ _. unchanged (cost env.open_calls) s v)

  run_on_message-Step :
      (text : Bytes) (s : WsClient)
      → IsFresh s
      → s.generation + cost (env.message_calls text) < 2 ^ 64
      → Step (cost (env.message_calls text)) s (run_on_message env text s)
  unfolding run_on_message
  run_on_message-Step text s v h =
      if_case (Step (cost (env.message_calls text)) s) s.has_handlers
        (λ _.
          let a = emitted (call_on_message text) s refl v in
          chain (cost (env.message_calls text)) 0 (cost (env.message_calls text)) s
            (emit (call_on_message text) s) _ (omega arith) a
            (run_all_dispatched-Step env (env.message_calls text) (emit (call_on_message text) s)
              a.fresh h))
        (λ _. unchanged (cost (env.message_calls text)) s v)

  came_up-Step :
      (g : ℕ) (s : WsClient)
      → IsFresh s
      → holds s.socket s.generation ≡ true
      → Step 0 s (came_up env g s)
  came_up-Step g s v h = record {
    fresh = record {
      operations =
          own_all-log s.generation s.socket "connected" (emit cancel_stage_timer s) ∙ v.operations;
      up = λ e. h;
    };
    within = record { least = omega arith; most = omega arith };
    same = λ e. refl;
  }

  -- An operation begun after steps that have left the generation as it was.
  begun_after :
      (n g : ℕ) (e : Effect) (s t : WsClient)
      → ((m : ℕ) (k : Option ℕ) → own m k e ≡ owned m k g)
      → Step n s t
      → g ≡ s.generation
      → g ≡ t.generation
      → holds s.socket s.generation ≡ true
      → Step n s (emit e t)
  begun_after n g e s t o a h k up =
      let l = a.within.least in
      let w = a.within.most in
      chain n n 0 s t _ (omega arith) a (
        emitted e t
          (o t.generation t.socket
            ∙ own_here t.generation g t.socket k (
                ap (λ q. holds q t.generation) (a.same (sym k ∙ h))
                ∙ ap (holds s.socket) (sym k ∙ h)
                ∙ up))
          a.fresh)

  -- The handshake of a client with a stream in place.
  opened-Step :
      (g : ℕ) (s : WsClient)
      → IsFresh s
      → g ≡ s.generation
      → holds s.socket s.generation ≡ true
      → s.generation + cost env.open_calls < 2 ^ 64
      → Step (cost env.open_calls) s (opened env g s)
  unfolding opened
  opened-Step g s v k h w =
      if_case (Step n s) (up.stopped || not (g == up.generation)) (λ _. ran)
        (λ e.
          let w1 = written.within.least in
          let w2 = written.within.most in
          begun_after n g (begin_read g) s (schedule_keepalive env (write_waiting g up))
            (λ m q. refl) (chain n n 0 s up _ (omega arith) ran written) k
            (same_generation up.stopped g up.generation e ∙ still) h)
    where
      n : ℕ
      n = cost env.open_calls

      up : WsClient
      up = run_on_open env (came_up env g s)

      ran : Step n s up
      ran =
          let a = came_up-Step g s v h in
          chain n 0 n s (came_up env g s) up (omega arith) a
            (run_on_open-Step (came_up env g s) a.fresh w)

      written : Step 0 up (schedule_keepalive env (write_waiting g up))
      written =
          let a = write_waiting-Step g up ran.fresh in
          chain 0 0 0 up (write_waiting g up) _ (omega arith) a
            (schedule_keepalive-Step env (write_waiting g up) a.fresh)

      still : up.generation ≡ (schedule_keepalive env (write_waiting g up)).generation
      still = let l = written.within.least in let m = written.within.most in omega arith

      same_generation : (a : Bool) (g m : ℕ) → (a || not (g == m)) ≡ false → g ≡ m
      same_generation a g m e = ground arith

  stage_succeeded-Step :
      (stage : Stage) (g : ℕ) (s : WsClient)
      → IsFresh s
      → g ≡ s.generation
      → holds s.socket s.generation ≡ true
      → s.generation + cost env.open_calls < 2 ^ 64
      → Step (cost env.open_calls) s (stage_succeeded env stage g s)
  unfolding stage_succeeded
  stage_succeeded-Step resolve g s v k h w =
      widen 0 (cost env.open_calls) s _ (omega arith)
        (emitted (begin_stage connect g) s (own_here s.generation g s.socket k h) v)
  stage_succeeded-Step connect g s v k h w =
      widen 0 (cost env.open_calls) s _ (omega arith)
        (emitted (begin_stage tls_handshake g) s (own_here s.generation g s.socket k h) v)
  stage_succeeded-Step tls_handshake g s v k h w =
      widen 0 (cost env.open_calls) s _ (omega arith)
        (emitted (begin_stage ws_handshake g) s (own_here s.generation g s.socket k h) v)
  stage_succeeded-Step ws_handshake g s v k h w = opened-Step g s v k h w

  pub stage_done-Step :
      (stage : Stage) (g : ℕ) (ec : Option SocketError) (s : WsClient)
      → IsFresh s
      → owned s.generation s.socket g ≡ true
      → s.generation + (2 + cost env.open_calls) < 2 ^ 64
      → Step (2 + cost env.open_calls) s (stage_done env stage g ec s)
  unfolding stage_done
  stage_done-Step stage g none s v o w =
      if_case (Step (2 + cost env.open_calls) s) (not (g == s.generation))
        (λ _. unchanged (2 + cost env.open_calls) s v)
        (λ e.
          let k = same_of g s.generation e in
          widen (cost env.open_calls) (2 + cost env.open_calls) s _ (omega arith) (
            stage_succeeded-Step stage g s v k (owned_here s.generation g s.socket o k)
              (omega arith)))
  stage_done-Step stage g (some e) s v o w =
      if_case (Step (2 + cost env.open_calls) s) (not (g == s.generation))
        (λ _. unchanged (2 + cost env.open_calls) s v)
        (λ _.
          widen 2 (2 + cost env.open_calls) s _ (omega arith) (fail-Step env e g s v (omega arith)))

  pub read_done-Step :
      (g : ℕ) (text : Bytes) (ec : Option SocketError) (s : WsClient)
      → IsFresh s
      → owned s.generation s.socket g ≡ true
      → s.generation + (2 + cost (env.message_calls text)) < 2 ^ 64
      → Step (2 + cost (env.message_calls text)) s (read_done env g text ec s)
  unfolding read_done
  read_done-Step g text none s v o w =
      if_case (Step (2 + n) s) (not (g == s.generation)) (λ _. unchanged (2 + n) s v)
        (λ e.
          let k = same_of g s.generation e in
          if_case (Step (2 + n) s) (not heard.stopped && g == heard.generation)
            (λ f. widen n (2 + n) s _ (omega arith) (
              begun_after n g (begin_read g) s heard (λ m q. refl) ran k
                (second heard.stopped g heard.generation f)
                (owned_here s.generation g s.socket o k)))
            (λ _. widen n (2 + n) s heard (omega arith) ran))
    where
      n : ℕ
      n = cost (env.message_calls text)

      calm : WsClient
      calm = record s { reconnect_delay_ms = 500 }

      heard : WsClient
      heard = run_on_message env text calm

      calmed : Step 0 s calm
      calmed = record {
        fresh = record { operations = v.operations; up = v.up };
        within = record { least = omega arith; most = omega arith };
        same = λ e. refl;
      }

      ran : Step n s heard
      ran =
          chain n 0 n s calm heard (omega arith) calmed
            (run_on_message-Step text calm calmed.fresh (omega arith))

      second : (a : Bool) (g m : ℕ) → (not a && g == m) ≡ true → g ≡ m
      second a g m e = ground arith
  read_done-Step g text (some e) s v o w =
      if_case (Step (2 + cost (env.message_calls text)) s) (not (g == s.generation))
        (λ _. unchanged (2 + cost (env.message_calls text)) s v)
        (λ _.
          widen 2 (2 + cost (env.message_calls text)) s _ (omega arith)
            (fail-Step env e g s v (omega arith)))

  pub write_done-Step :
      (g : ℕ) (p : Payload) (ec : Option SocketError) (s : WsClient)
      → IsFresh s
      → s.generation + 2 < 2 ^ 64
      → Step 2 s (write_done env g p ec s)
  unfolding write_done
  write_done-Step g p none s v w =
      if_case (Step 2 s) (not (g == s.generation)) (λ _. unchanged 2 s v)
        (λ _.
          let q = record s { write_queue = complete p s.write_queue } in
          chain 2 0 0 s q _ (omega arith)
            (record {
              fresh = record { operations = v.operations; up = v.up };
              within = record { least = omega arith; most = omega arith };
              same = λ e. refl;
            })
            (do_write-Step g q (record { operations = v.operations; up = v.up })))
  write_done-Step g p (some e) s v w =
      if_case (Step 2 s) (not (g == s.generation)) (λ _. unchanged 2 s v)
        (λ _. fail-Step env e g s v w)
