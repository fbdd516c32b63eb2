-- ===== src/Net/WsClient/Live.antt =====
-- When a client is live, and that its own calls and its connect leave it so.
use polymarket_cpp.Prelude.{
  ℕ, ◌≡◌, refl, inl, inr, Bool, true, false, ◌&&◌, ◌||◌, not, Option, none, some, Bytes, String, ℤ,
  pos, negsuc, arith, ◌==◌, if_case, Option-cases,
}
use polymarket_cpp.Net.WriteQueue.{WsWriteQueue, push_connection, empty, front_payload}
use polymarket_cpp.Net.WsClient.State.{
  WsFailure, SocketError, Environment, WsClient, next_generation, is_none,
}
use polymarket_cpp.Net.WsClient.Handlers.{
  stop, arm_reconnect, by_policy, schedule_reconnect, kick, fail, do_write, write_if_idle, pushed,
  send_first, do_connect, stage_deadline, reconnect_due,
}
use polymarket_cpp.Net.WsClient.Fresh.{holds}

-- It is stopped, has the stream of its current generation, or has a reconnect armed.
abbrev pub is_live : WsClient → Bool
is_live s = s.stopped || holds s.socket s.generation || s.reconnect_scheduled

abbrev pub IsLive : WsClient → Type 0
IsLive s = is_live s ≡ true

by_timer : (a b : Bool) → (a || b || true) ≡ true
by_timer a b = ground arith

by_socket : (a c : Bool) (g : ℕ) → (a || g == g || c) ≡ true
by_socket a c g = ground arith

by_stop : (a b c : Bool) → a ≡ true → (a || b || c) ≡ true
by_stop a b c h = ground arith

pub stop-IsLive : (c : Bool) (s : WsClient) → IsLive (stop c s)
unfolding stop
stop-IsLive c s = refl

arm_reconnect-IsLive : (delay : ℤ) (s : WsClient) → IsLive (arm_reconnect delay s)
unfolding arm_reconnect
arm_reconnect-IsLive delay s = by_timer s.stopped false

by_policy-IsLive : (d : Option ℤ) (s : WsClient) → IsLive (by_policy d s)
unfolding by_policy
by_policy-IsLive none s = stop-IsLive false s
by_policy-IsLive (some (negsuc n)) s = stop-IsLive false s
by_policy-IsLive (some (pos n)) s = arm_reconnect-IsLive (pos n) s

pub do_write_live : (g : ℕ) (s : WsClient) → is_live (do_write g s) ≡ is_live s
unfolding do_write
do_write_live g s =
    if_case (λ t. is_live t ≡ is_live s)
      (not (g == s.generation) || empty s.write_queue || not s.connected) (λ _. refl)
      (λ _. elim (Option-cases (front_payload s.write_queue)) [
        | inl n ↦ rw n refl
        | inr (p, f) ↦ rw f refl
      ])

write_if_idle_live : (s : WsClient) → is_live (write_if_idle s) ≡ is_live s
write_if_idle_live s =
    if_case (λ t. is_live t ≡ is_live s) (s.connected && not s.writing)
      (λ _. do_write_live s.generation s) (λ _. refl)

pub pushed_live :
    (text : String) (s : WsClient) (r : WsWriteQueue × Bool) → is_live (pushed text s r) ≡ is_live s
pushed_live text s (q, true) = write_if_idle_live (record s { write_queue = q })
pushed_live text s (q, false) = refl

pub send_first_live : (text : Bytes) (s : WsClient) → is_live (send_first text s) ≡ is_live s
unfolding send_first
send_first_live text s = pushed_live _ s (push_connection text s.generation true s.write_queue)

module _ (env : Environment) where
  schedule_reconnect-IsLive : (f : WsFailure) (s : WsClient) → IsLive (schedule_reconnect env f s)
  unfolding schedule_reconnect
  schedule_reconnect-IsLive f s =
      if_case IsLive (s.stopped || s.reconnect_scheduled) {x = s}
        (λ e. waits s.stopped (holds s.socket s.generation) s.reconnect_scheduled e)
        (λ _.
          if_case IsLive s.has_handlers
            (λ _. elim (Option-cases env.failure_policy) [
              | inl n ↦ rw n (arm_reconnect-IsLive _ s)
              | inr (policy, e) ↦ rw e (by_policy-IsLive (policy f) s)
            ])
            (λ _. arm_reconnect-IsLive _ s))
    where
      waits : (a b c : Bool) → (a || c) ≡ true → (a || b || c) ≡ true
      waits a b c h = ground arith

  pub kick-IsLive : (s : WsClient) → IsLive s → IsLive (kick env s)
  unfolding kick
  kick-IsLive s v =
      if_case IsLive (is_none s.socket || s.stopped || not s.connected) (λ _. v)
        (λ _. schedule_reconnect-IsLive _ _)

  pub fail-IsLive : (e : SocketError) (g : ℕ) (s : WsClient) → IsLive s → IsLive (fail env e g s)
  unfolding fail
  fail-IsLive e g s v =
      if_case IsLive (s.stopped || not (g == s.generation)) (λ _. v)
        (λ _. schedule_reconnect-IsLive _ _)

  pub do_connect-IsLive : (s : WsClient) → IsLive (do_connect env s)
  unfolding do_connect
  do_connect-IsLive s =
      if_case IsLive s.stopped
        (λ e. by_stop s.stopped (holds s.socket s.generation) s.reconnect_scheduled e)
        (λ _.
          let g = next_generation s.generation in
          if_case IsLive (not (env.sni_setup g)) (λ _. schedule_reconnect-IsLive _ _)
            (λ _.
              if_case IsLive (not (env.hostname_setup g)) (λ _. schedule_reconnect-IsLive _ _)
                (λ _. by_socket s.stopped false g)))

  pub stage_deadline-IsLive :
      (g : ℕ) (ec : Bool) (s : WsClient) → IsLive s → IsLive (stage_deadline env g ec s)
  unfolding stage_deadline
  stage_deadline-IsLive g ec s v =
      if_case IsLive (ec || s.stopped || not (g == s.generation) || s.connected) (λ _. v)
        (λ _. schedule_reconnect-IsLive _ _)

  pub reconnect_due-IsLive : (ec : Bool) (s : WsClient) → IsLive s → IsLive (reconnect_due env ec s)
  unfolding reconnect_due
  reconnect_due-IsLive ec s v = if_case IsLive (ec || s.stopped) (λ _. v) (λ _. do_connect-IsLive _)
