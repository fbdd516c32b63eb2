-- ===== src/Net/WsClient/Reachable.antt =====
-- The states that the client can reach, and what no event changes.
use polymarket_cpp.Prelude.{
  ℕ, suc, ◌+◌, ◌/◌, ◌%◌, ◌≤◌, ◌≡◌, refl, ◌∙◌, Bool, true, false, ◌&&◌, ◌||◌, not, Option, none,
  some, List, [], ◌∷◌, String, min, max, arith, ◌==◌, if◌then◌else◌, if_case,
}
use polymarket_cpp.Net.WriteQueue.{WsWriteQueue, push_retained, push_connection}
use polymarket_cpp.Net.WsClient.State.{
  Effect, begin_stage, begin_read, begin_write, wait_stage_timer, wait_reconnect_timer,
  wait_keepalive_timer, Environment, WsClient, new_client, is_none, close_of,
}
use polymarket_cpp.Net.WsClient.Handlers.{
  stop, jitter_ms, backoff_ms, pushed, send, send_first, kick, do_connect, stage_deadline,
  reconnect_due, keepalive_due, stage_done, read_done, write_done,
}
use polymarket_cpp.Net.WsClient.Events.{
  Event, start_event, kick_event, stop_event, send_event, send_first_event, stage_timer_event,
  reconnect_timer_event, keepalive_timer_event, stage_event, read_event, write_event, handle,
}
use polymarket_cpp.Net.WsClient.Invariant.{IsValidClient}
use polymarket_cpp.Net.WsClient.Preserved.{Admissible}
use polymarket_cpp.Net.WsClient.Completions.{handle-IsValidClient}

-- A new client, and what any admissible event makes of a reachable one.
pub data Reachable (env : Environment) : WsClient → Type 0 where
  created : Reachable env new_client
  handled :
      {s : WsClient} (e : Event) → Reachable env s → Admissible e s → Reachable env (handle env e s)

new_client-IsValidClient : IsValidClient new_client
new_client-IsValidClient = record {
  retired = λ h. absurd (cc);
  alive = λ h. absurd (cc);
  waiting = λ h. absurd (cc);
  writes = λ h. absurd (cc);
  backoff = omega arith;
  queue = record {
    reserved = omega arith;
    bounded = omega arith;
    retained_bounded = omega arith;
    below = tt;
    distinct = tt;
  };
}

-- A client that is reached from a new one, by any calls and completions, is valid, where only the handlers of
-- the opening and of a message call back: a
-- stopped client has no stream, is not connected and has no reconnect armed; a connected one has the
-- stream of its own generation, no reconnect armed and no frame of another connection in its queue; a
-- write is in flight only while connected; the backoff is between 500 and 30000 ms; the queue keeps
-- its bounds. A completion is taken to be for the stream in place where it carries the current
-- generation.
pub Reachable-IsValidClient : (env : Environment) (s : WsClient) → Reachable env s → IsValidClient s
Reachable-IsValidClient env _ created = new_client-IsValidClient
Reachable-IsValidClient env _ (handled {s} e r a) =
    handle-IsValidClient env e s (Reachable-IsValidClient env s r) a

-- The asynchronous operations and waits that were begun.
abbrev pub begun : List Effect → ℕ
begun [] = 0
begun (begin_stage stage g ∷ es) = suc (begun es)
begun (begin_read g ∷ es) = suc (begun es)
begun (begin_write g p ∷ es) = suc (begun es)
begun (wait_stage_timer g ∷ es) = suc (begun es)
begun (wait_reconnect_timer d ∷ es) = suc (begun es)
begun (wait_keepalive_timer d ∷ es) = suc (begun es)
begun (_ ∷ es) = begun es

-- Stopped, without a stream, and with as many operations begun as `n`.
abbrev pub IsRetired : ℕ → WsClient → Type 0
IsRetired n s =
    (s.stopped ≡ true) × (s.connected ≡ false) × (s.socket ≡ none) × (begun s.effects ≡ n)

pushed-IsRetired :
    (n : ℕ) (text : String) (s : WsClient) (r : WsWriteQueue × Bool)
    → IsRetired n s
    → IsRetired n (pushed text s r)
pushed-IsRetired n text s (q, true) (stops, down, gone, same) =
    if_case (IsRetired n) (s.connected && not s.writing)
      (λ e. absurd (up s.connected s.writing e down)) (λ _. (stops, down, gone, same))
  where
    up : (a b : Bool) → (a && not b) ≡ true → a ≡ false → ⊥
    up a b h k = ground arith
pushed-IsRetired n text s (q, false) (stops, down, gone, same) =
    (stops, down, gone, if_case (λ es. begun es ≡ n) s.has_handlers (λ _. same) (λ _. same))

pub begun-close_of : (o : Option ℕ) (es : List Effect) → begun (close_of o es) ≡ begun es
begun-close_of none es = refl
begun-close_of (some g) es = refl

stop-IsRetired : (n : ℕ) (c : Bool) (s : WsClient) → IsRetired n s → IsRetired n (stop c s)
unfolding stop
stop-IsRetired n c s (stops, down, gone, same) =
    let closed = begun-close_of s.socket _ ∙ same in
    (refl, refl, refl, if_case (λ es. begun es ≡ n) c (λ _. closed) (λ _. closed))

-- A guard that holds of a stopped client.
kept :
    (n : ℕ) (s : WsClient) (b : Bool) (y : WsClient)
    → IsRetired n s
    → b ≡ true
    → IsRetired n (if b then s else y)
kept n s b y r h = if_case (IsRetired n) b (λ _. r) (λ k. absurd (cc))

other_stream :
    (n g : ℕ) (s y : WsClient)
    → IsRetired n s
    → (g ≡ s.generation → s.socket ≡ some g)
    → IsRetired n (if not (g == s.generation) then s else y)
other_stream n g s y r own =
    if_case (IsRetired n) (not (g == s.generation)) (λ _. r)
      (λ k.
        let e = own (ground arith) in let (_, _, gone, _) = r in absurd (no_stream s.socket gone e))
  where
    no_stream : (o : Option ℕ) → o ≡ none → o ≡ some g → ⊥
    no_stream o h k = cc

-- Stopping is final: whatever happens to a stopped client, it stays stopped, unconnected and without
-- a stream, and it begins no asynchronous operation and no wait. A completion is taken to be for the
-- stream in place where it carries the current generation.
pub handle-IsRetired :
    (env : Environment) (e : Event) (s : WsClient) (n : ℕ)
    → IsRetired n s
    → Admissible e s
    → IsRetired n (handle env e s)
unfolding handle send send_first kick do_connect stage_deadline reconnect_due keepalive_due
    stage_done read_done write_done
handle-IsRetired env start_event s n r a = kept n s s.stopped _ r r.0
handle-IsRetired env kick_event s n r a =
    kept n s (is_none s.socket || s.stopped || not s.connected) _ r
      (second (is_none s.socket) s.stopped _ r.0)
  where
    second : (x y z : Bool) → y ≡ true → (x || y || z) ≡ true
    second x y z h = ground arith
handle-IsRetired env (stop_event c) s n r a = stop-IsRetired n c s r
handle-IsRetired env (send_event text) s n r a =
    pushed-IsRetired n _ s (push_retained text s.write_queue) r
handle-IsRetired env (send_first_event text) s n r a =
    pushed-IsRetired n _ s (push_connection text s.generation true s.write_queue) r
handle-IsRetired env (stage_timer_event g ec) s n r a =
    kept n s (ec || s.stopped || not (g == s.generation) || s.connected) _ r
      (second ec s.stopped _ _ r.0)
  where
    second : (x y z w : Bool) → y ≡ true → (x || y || z || w) ≡ true
    second x y z w h = ground arith
handle-IsRetired env (reconnect_timer_event ec) s n r a =
    kept n s (ec || s.stopped) _ r (second ec s.stopped r.0)
  where
    second : (x y : Bool) → y ≡ true → (x || y) ≡ true
    second x y h = ground arith
handle-IsRetired env (keepalive_timer_event ec) s n r a =
    kept n s (ec || s.stopped || not s.connected) _ r (second ec s.stopped _ r.0)
  where
    second : (x y z : Bool) → y ≡ true → (x || y || z) ≡ true
    second x y z h = ground arith
handle-IsRetired env (stage_event stage g ec) s n r a = other_stream n g s _ r a
handle-IsRetired env (read_event g text ec) s n r a = other_stream n g s _ r a
handle-IsRetired env (write_event g p ec) s n r a = other_stream n g s _ r a

mod_bound : (a m : ℕ) → a % (m + 1) ≤ m
mod_bound a m = omega arith

-- The wait before a reconnect, without a policy: at least the backoff, at most a fifth of it (or 25 ms)
-- more, and never above 30 s.
pub backoff_ms_bounds :
    (host_hash generation delay : ℕ)
    → delay ≤ 30000
    → (delay ≤ backoff_ms host_hash generation delay)
      × (backoff_ms host_hash generation delay ≤ delay + max 25 (delay / 5))
      × (backoff_ms host_hash generation delay ≤ 30000)
unfolding backoff_ms
backoff_ms_bounds host_hash generation delay h =
    within (jitter_ms host_hash generation delay) delay (delay / 5) h
      (jitter_bound host_hash generation delay)
  where
    jitter_bound : (hash g d : ℕ) → jitter_ms hash g d ≤ max 25 (d / 5)
    jitter_bound hash g d = unfold jitter_ms in mod_bound _ (max 25 (d / 5))

    within :
        (j d w : ℕ)
        → d ≤ 30000
        → j ≤ max 25 w
        → (d ≤ min 30000 (d + j)) × (min 30000 (d + j) ≤ d + max 25 w) × (min 30000 (d + j) ≤ 30000)
    within j d w h k = (omega arith, omega arith, omega arith)
