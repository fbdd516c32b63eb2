-- ===== src/Net/WsClient/Invariant.antt =====
-- What holds of the client between two handlers.
use polymarket_cpp.Prelude.{
  ℕ, ◌≤◌, ◌≡◌, refl, Bool, true, false, ◌&&◌, ◌||◌, not, Option, none, some, List, Bytes, String, ℤ,
  pos, negsuc, arith, All, ◌==◌, if_case, Bool-cases, Option-cases, inl, inr,
}
use polymarket_cpp.Net.WriteQueue.{
  WsWriteQueue, push_retained, push_connection, push_retained_call, push_connection_call,
  clear_call, run_call, empty, front_payload,
}
use polymarket_cpp.Net.WriteQueue.Bounds.{IsValid, run_call-IsValid}
use polymarket_cpp.Net.WriteQueue.Retained.{
  IsCurrent, push_retained-IsCurrent, push_connection-IsCurrent,
}
use polymarket_cpp.Net.WsClient.State.{WsFailure, Effect, Environment, WsClient}
use polymarket_cpp.Net.WsClient.Handlers.{
  stop, arm_reconnect, by_policy, schedule_reconnect, do_write, write_if_idle, pushed, send,
  send_first, backoff_ms,
}

-- A stopped client has no connection and waits for none; a connected one has the stream of its own
-- generation and only frames for it; the backoff stays between half a second and half a minute.
pub record IsValidClient (s : WsClient) : Type 0 where
  pub retired :
      s.stopped ≡ true → (s.connected ≡ false) × (s.reconnect_scheduled ≡ false) × (s.socket ≡ none)
  pub alive :
      s.connected ≡ true
      → (s.socket ≡ some s.generation)
        × (s.reconnect_scheduled ≡ false)
        × All (IsCurrent s.generation) s.write_queue.entries
  pub waiting : s.reconnect_scheduled ≡ true → s.socket ≡ none
  pub writes : s.writing ≡ true → s.connected ≡ true
  pub backoff : (500 ≤ s.reconnect_delay_ms) × (s.reconnect_delay_ms ≤ 30000)
  pub queue : IsValid s.write_queue

-- A client whose connection is down, and that no reconnect is armed for yet.
pub record IsDown (s : WsClient) : Type 0 where
  pub running : s.stopped ≡ false
  pub unarmed : s.reconnect_scheduled ≡ false
  pub down : s.connected ≡ false
  pub idle : s.writing ≡ false
  pub delay : (500 ≤ s.reconnect_delay_ms) × (s.reconnect_delay_ms ≤ 30000)
  pub bounded : IsValid s.write_queue

pub effects-IsValidClient :
    (s : WsClient) (es : List Effect) → IsValidClient s → IsValidClient (record s { effects = es })
effects-IsValidClient s es v = record {
  retired = v.retired;
  alive = v.alive;
  waiting = v.waiting;
  writes = v.writes;
  backoff = v.backoff;
  queue = v.queue;
}

pub queue-IsValidClient :
    (s : WsClient) (q : WsWriteQueue)
    → IsValidClient s
    → IsValid q
    → (All (IsCurrent s.generation) s.write_queue.entries → All (IsCurrent s.generation) q.entries)
    → IsValidClient (record s { write_queue = q })
queue-IsValidClient s q v vq keeps = record {
  retired = v.retired;
  alive = λ c. let (a, b, k) = v.alive c in (a, b, keeps k);
  waiting = v.waiting;
  writes = v.writes;
  backoff = v.backoff;
  queue = vq;
}

pub stop-IsValidClient :
    (completion : Bool) (s : WsClient)
    → (500 ≤ s.reconnect_delay_ms) × (s.reconnect_delay_ms ≤ 30000)
    → IsValid s.write_queue
    → IsValidClient (stop completion s)
unfolding stop run_call
stop-IsValidClient completion s d q = record {
  retired = λ h. (refl, refl, refl);
  alive = λ h. cc;
  waiting = λ h. cc;
  writes = λ h. cc;
  backoff = d;
  queue = run_call-IsValid clear_call s.write_queue q;
}

arm_reconnect-IsValidClient : (d : ℤ) (s : WsClient) → IsDown s → IsValidClient (arm_reconnect d s)
unfolding arm_reconnect
arm_reconnect-IsValidClient d s v = record {
  retired = λ h. let k = v.running in cc;
  alive = λ h. let k = v.down in cc;
  waiting = λ h. refl;
  writes = λ h. let k = v.idle in cc;
  backoff = omega (arith, v.delay);
  queue = v.bounded;
}

by_policy-IsValidClient : (d : Option ℤ) (s : WsClient) → IsDown s → IsValidClient (by_policy d s)
unfolding by_policy
by_policy-IsValidClient none s v = stop-IsValidClient false s v.delay v.bounded
by_policy-IsValidClient (some (negsuc n)) s v = stop-IsValidClient false s v.delay v.bounded
by_policy-IsValidClient (some (pos n)) s v = arm_reconnect-IsValidClient (pos n) s v

pub schedule_reconnect-IsValidClient :
    (env : Environment) (f : WsFailure) (s : WsClient)
    → IsDown s
    → IsValidClient (schedule_reconnect env f s)
unfolding schedule_reconnect
schedule_reconnect-IsValidClient env f s v =
    let armed =
      arm_reconnect-IsValidClient (pos (backoff_ms env.host_hash s.generation s.reconnect_delay_ms))
        s v in
    if_case IsValidClient (s.stopped || s.reconnect_scheduled) {x = s}
      (λ e. absurd (down_now s.stopped s.reconnect_scheduled v.running v.unarmed e))
      (λ _.
        if_case IsValidClient s.has_handlers
          (λ _. elim (Option-cases env.failure_policy) [
            | inl no_policy ↦ rw no_policy armed
            | inr (policy, e) ↦ rw e (by_policy-IsValidClient (policy f) s v)
          ])
          (λ _. armed))
  where
    down_now : (a b : Bool) → a ≡ false → b ≡ false → (a || b) ≡ true → ⊥
    down_now a b h k e = ground arith

pub do_write-IsValidClient : (g : ℕ) (s : WsClient) → IsValidClient s → IsValidClient (do_write g s)
unfolding do_write
do_write-IsValidClient g s v =
    elim (Bool-cases (not (g == s.generation) || empty s.write_queue || not s.connected)) [
      | inl e ↦ rw e (idle s v)
      | inr e ↦ rw e (elim (Option-cases (front_payload s.write_queue)) [
        | inl n ↦ rw n (idle s v)
        | inr (p, f) ↦
            let up : s.connected ≡ true =
              last_false (g == s.generation) (empty s.write_queue) s.connected e in
            rw f (record {
              retired = v.retired;
              alive = v.alive;
              waiting = v.waiting;
              writes = λ h. up;
              backoff = v.backoff;
              queue = v.queue;
            })
      ])
    ]
  where
    last_false : (a b c : Bool) → (not a || b || not c) ≡ false → c ≡ true
    last_false a b c h = ground arith

    idle : (s : WsClient) → IsValidClient s → IsValidClient (record s { writing = false })
    idle s v = record {
      retired = v.retired;
      alive = v.alive;
      waiting = v.waiting;
      writes = λ h. cc;
      backoff = v.backoff;
      queue = v.queue;
    }

write_if_idle-IsValidClient : (s : WsClient) → IsValidClient s → IsValidClient (write_if_idle s)
write_if_idle-IsValidClient s v = elim (Bool-cases (s.connected && not s.writing)) [
  | inl e ↦ rw e (do_write-IsValidClient s.generation s v)
  | inr e ↦ rw e v
]

pushed-IsValidClient :
    (text : String) (s : WsClient) (r : WsWriteQueue × Bool)
    → IsValidClient (record s { write_queue = r.0 })
    → IsValidClient (pushed text s r)
pushed-IsValidClient text s (q, true) v =
    write_if_idle-IsValidClient (record s { write_queue = q }) v
pushed-IsValidClient text s (q, false) v = effects-IsValidClient (record s { write_queue = q }) _ v

pub send-IsValidClient :
    (text : Bytes) (s : WsClient) → IsValidClient s → IsValidClient (send text s)
unfolding send run_call
send-IsValidClient text s v = pushed-IsValidClient _ s (push_retained text s.write_queue) (
    queue-IsValidClient s _ v (run_call-IsValid (push_retained_call text) s.write_queue v.queue)
      (λ k. push_retained-IsCurrent text s.generation s.write_queue k))

pub send_first-IsValidClient :
    (text : Bytes) (s : WsClient) → IsValidClient s → IsValidClient (send_first text s)
unfolding send_first run_call
send_first-IsValidClient text s v =
    pushed-IsValidClient _ s (push_connection text s.generation true s.write_queue) (
      queue-IsValidClient s _ v
        (run_call-IsValid (push_connection_call text s.generation true) s.write_queue v.queue)
        (λ k. push_connection-IsCurrent text s.generation true s.write_queue))
