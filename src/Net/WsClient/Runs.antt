-- ===== src/Net/WsClient/Runs.antt =====
-- The runs of `WsClient` in which every completion is of an operation that was begun: in these a completion of
-- the current generation is for the stream in place.
use polymarket_cpp.Prelude.{
  ℕ, ◌+◌, ◌^◌, ◌<◌, ◌≡◌, refl, sym, ap, ◌∙◌, ◌⊎◌, inl, inr, Bool, true, ◌&&◌, Option, none, some,
  List, [], ◌∷◌, arith,
}
use polymarket_cpp.Net.WsClient.State.{
  Effect, begin_stage, begin_read, begin_write, wait_stage_timer, Environment, WsClient, new_client,
}
use polymarket_cpp.Net.WsClient.Events.{
  Event, start_event, kick_event, stop_event, send_event, send_first_event, stage_timer_event,
  reconnect_timer_event, keepalive_timer_event, stage_event, read_event, write_event, handle,
}
use polymarket_cpp.Net.WsClient.Preserved.{Admissible}
use polymarket_cpp.Net.WsClient.Reachable.{Reachable}
use polymarket_cpp.Net.WsClient.Fresh.{owned, own, own_all, IsFresh}
use polymarket_cpp.Net.WsClient.Generations.{cost, stop-Step, send-Step, send_first-Step}
use polymarket_cpp.Net.WsClient.CallSteps.{
  kick-Step, stage_deadline-Step, do_connect-Step, reconnect_due-Step, keepalive_due-Step,
}
use polymarket_cpp.Net.WsClient.Origins.{stage_done-Step, read_done-Step, write_done-Step}

abbrev pub Among : Effect → List Effect → Type 0
Among e [] = ⊥
Among e (x ∷ es) = (x ≡ e) ⊎ Among e es

-- The operation that completes was begun, at whatever time; every other event may come at any time.
abbrev pub Begun : Event → List Effect → Type 0
Begun (stage_timer_event g ec) es = Among (wait_stage_timer g) es
Begun (stage_event stage g ec) es = Among (begin_stage stage g) es
Begun (read_event g text ec) es = Among (begin_read g) es
Begun (write_event g p ec) es = Among (begin_write g p) es
Begun _ es = Unit {0}

-- At most how many new generations an event takes, with the calls that the callbacks make back.
abbrev pub event_cost : Environment → Event → ℕ
event_cost env (stage_event stage g ec) = 2 + cost env.open_calls
event_cost env (read_event g text ec) = 2 + cost (env.message_calls text)
event_cost env _ = 3

own-Among :
    (n : ℕ) (k : Option ℕ) (e : Effect) (es : List Effect)
    → own_all n k es ≡ true
    → Among e es
    → own n k e ≡ true
own-Among n k e [] h m = absurd m
own-Among n k e (x ∷ es) h (inl p) = ap (own n k) (sym p) ∙ first (own n k x) (own_all n k es) h
  where
    first : (a b : Bool) → (a && b) ≡ true → a ≡ true
    first a b q = ground arith
own-Among n k e (x ∷ es) h (inr m) = own-Among n k e es (second (own n k x) (own_all n k es) h) m
  where
    second : (a b : Bool) → (a && b) ≡ true → b ≡ true
    second a b q = ground arith

in_place : (n g : ℕ) (k : Option ℕ) → owned n k g ≡ true → g ≡ n → k ≡ some g
in_place n g none o e = absurd (ground arith)
in_place n g (some m) o e = ap some (place m (ground arith))
  where
    place : (m : ℕ) → m ≡ g → m ≡ g
    place m h = h

-- A completion of an operation that was begun is for the stream in place where its generation is current.
pub Begun-Admissible : (e : Event) (s : WsClient) → IsFresh s → Begun e s.effects → Admissible e s
Begun-Admissible (stage_timer_event g ec) s v m =
    in_place s.generation g s.socket (own-Among _ _ (wait_stage_timer g) s.effects v.operations m)
Begun-Admissible (stage_event stage g ec) s v m =
    in_place s.generation g s.socket (own-Among _ _ (begin_stage stage g) s.effects v.operations m)
Begun-Admissible (read_event g text ec) s v m =
    in_place s.generation g s.socket (own-Among _ _ (begin_read g) s.effects v.operations m)
Begun-Admissible (write_event g p ec) s v m =
    in_place s.generation g s.socket (own-Among _ _ (begin_write g p) s.effects v.operations m)
Begun-Admissible start_event s v m = tt
Begun-Admissible kick_event s v m = tt
Begun-Admissible (stop_event c) s v m = tt
Begun-Admissible (send_event text) s v m = tt
Begun-Admissible (send_first_event text) s v m = tt
Begun-Admissible (reconnect_timer_event ec) s v m = tt
Begun-Admissible (keepalive_timer_event ec) s v m = tt

module _ (env : Environment) where
  handle-IsFresh :
      (e : Event) (s : WsClient)
      → IsFresh s
      → Begun e s.effects
      → s.generation + event_cost env e < 2 ^ 64
      → IsFresh (handle env e s)
  unfolding handle
  handle-IsFresh start_event s v m w = (do_connect-Step env s v w).fresh
  handle-IsFresh kick_event s v m w = (kick-Step env s v (omega arith)).fresh
  handle-IsFresh (stop_event c) s v m w = (stop-Step c s v (omega arith)).fresh
  handle-IsFresh (send_event text) s v m w = (send-Step text s v).fresh
  handle-IsFresh (send_first_event text) s v m w = (send_first-Step text s v).fresh
  handle-IsFresh (stage_timer_event g ec) s v m w =
      (stage_deadline-Step env g ec s v (omega arith)).fresh
  handle-IsFresh (reconnect_timer_event ec) s v m w = (reconnect_due-Step env ec s v w).fresh
  handle-IsFresh (keepalive_timer_event ec) s v m w = (keepalive_due-Step env ec s v).fresh
  handle-IsFresh (stage_event stage g ec) s v m w =
      (stage_done-Step env stage g ec s v
        (own-Among _ _ (begin_stage stage g) s.effects v.operations m) w).fresh
  handle-IsFresh (read_event g text ec) s v m w =
      (read_done-Step env g text ec s v (own-Among _ _ (begin_read g) s.effects v.operations m)
        w).fresh
  handle-IsFresh (write_event g p ec) s v m w = (write_done-Step env g p ec s v (omega arith)).fresh

-- A new client, and what an event makes of a client as long as the counter of generations does not wrap.
pub data Runs (env : Environment) : WsClient → Type 0 where
  started : Runs env new_client
  ran :
      {s : WsClient} (e : Event)
      → Runs env s
      → Begun e s.effects
      → s.generation + event_cost env e < 2 ^ 64
      → Runs env (handle env e s)

pub Runs-IsFresh : (env : Environment) (s : WsClient) → Runs env s → IsFresh s
Runs-IsFresh env _ started = record { operations = refl; up = λ e. absurd (ground arith) }
Runs-IsFresh env _ (ran {s} e r m w) = handle-IsFresh env e s (Runs-IsFresh env s r) m w
