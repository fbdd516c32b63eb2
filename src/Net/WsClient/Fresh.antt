-- ===== src/Net/WsClient/Fresh.antt =====
-- Generations: which stream an operation was begun on, as long as the counter does not wrap.
use polymarket_cpp.Prelude.{
  ℕ, suc, ◌+◌, ◌^◌, ◌≤◌, ◌<◌, ◌≡◌, refl, ◌∙◌, Bool, true, false, ◌&&◌, ◌||◌, Option, none, some,
  List, [], ◌∷◌, ℤ, pos, negsuc, arith, ltb, ◌==◌, if_case, Option-cases, inl, inr, if◌then◌else◌,
}
use polymarket_cpp.Net.WsClient.State.{
  cancel_stage_timer, cancel_keepalive_timer, cancel_reconnect_timer, call_on_log, WsFailure,
  Effect, begin_stage, begin_read, begin_write, wait_stage_timer, Environment, WsClient,
  next_generation, close_of,
}
use polymarket_cpp.Net.WsClient.Handlers.{stop, arm_reconnect, by_policy, schedule_reconnect}

abbrev pub holds : Option ℕ → ℕ → Bool
holds none g = false
holds (some k) g = k == g

-- An operation of generation `g` is of an older stream or of the stream in place.
abbrev pub owned : ℕ → Option ℕ → ℕ → Bool
owned n socket g = ltb g n || (g == n && holds socket g)

abbrev pub own : ℕ → Option ℕ → Effect → Bool
own n socket (begin_stage stage g) = owned n socket g
own n socket (begin_read g) = owned n socket g
own n socket (begin_write g p) = owned n socket g
own n socket (wait_stage_timer g) = owned n socket g
own n socket _ = true

abbrev pub own_all : ℕ → Option ℕ → List Effect → Bool
own_all n socket [] = true
own_all n socket (e ∷ es) = own n socket e && own_all n socket es

pub record IsFresh (s : WsClient) : Type 0 where
  pub operations : own_all s.generation s.socket s.effects ≡ true
  pub up : s.connected ≡ true → holds s.socket s.generation ≡ true

-- The state that a reconnect is scheduled from.
pub record IsPast (s : WsClient) : Type 0 where
  pub operations : own_all s.generation none s.effects ≡ true
  pub down : s.connected ≡ false

owned_later : (n m g : ℕ) (k l : Option ℕ) → n < m → owned n k g ≡ true → owned m l g ≡ true
owned_later n m g k l h e = ground arith

owned_any : (n g : ℕ) (l : Option ℕ) → owned n none g ≡ true → owned n l g ≡ true
owned_any n g l e = ground arith

both_true :
    (a b c d : Bool)
    → (a ≡ true → c ≡ true)
    → (b ≡ true → d ≡ true)
    → (a && b) ≡ true
    → (c && d) ≡ true
both_true a b c d h k e = ground arith

own_later : (n m : ℕ) (k l : Option ℕ) (e : Effect) → n < m → own n k e ≡ true → own m l e ≡ true
own_later n m k l (begin_stage stage g) h e = owned_later n m g k l h e
own_later n m k l (begin_read g) h e = owned_later n m g k l h e
own_later n m k l (begin_write g p) h e = owned_later n m g k l h e
own_later n m k l (wait_stage_timer g) h e = owned_later n m g k l h e
own_later n m k l _ h e = refl

pub own_all_later :
    (n m : ℕ) (k l : Option ℕ) (es : List Effect)
    → n < m
    → own_all n k es ≡ true
    → own_all m l es ≡ true
own_all_later n m k l [] h e = refl
own_all_later n m k l (x ∷ es) h e =
    both_true (own n k x) (own_all n k es) (own m l x) (own_all m l es) (own_later n m k l x h)
      (own_all_later n m k l es h) e

own_any : (n : ℕ) (l : Option ℕ) (e : Effect) → own n none e ≡ true → own n l e ≡ true
own_any n l (begin_stage stage g) e = owned_any n g l e
own_any n l (begin_read g) e = owned_any n g l e
own_any n l (begin_write g p) e = owned_any n g l e
own_any n l (wait_stage_timer g) e = owned_any n g l e
own_any n l _ e = refl

pub own_all_any :
    (n : ℕ) (l : Option ℕ) (es : List Effect) → own_all n none es ≡ true → own_all n l es ≡ true
own_all_any n l [] e = refl
own_all_any n l (x ∷ es) e =
    both_true (own n none x) (own_all n none es) (own n l x) (own_all n l es) (own_any n l x)
      (own_all_any n l es) e

pub own_all_close :
    (n : ℕ) (k l : Option ℕ) (es : List Effect) → own_all n k (close_of l es) ≡ own_all n k es
own_all_close n k none es = refl
own_all_close n k (some g) es = refl

pub IsPast-IsFresh : (s : WsClient) → IsPast s → IsFresh s
IsPast-IsFresh s v = record {
  operations = own_all_any s.generation s.socket s.effects v.operations;
  up = λ e. absurd (contra s.connected e v.down);
}
  where
    contra : (b : Bool) → b ≡ true → b ≡ false → ⊥
    contra b h k = ground arith

pub next_generation_lem : (g : ℕ) → g + 1 < 2 ^ 64 → next_generation g ≡ suc g
next_generation_lem g h = omega arith

-- At most `n` new generations.
pub record Within (n : ℕ) (s t : WsClient) : Type 0 where
  pub least : s.generation ≤ t.generation
  pub most : t.generation ≤ s.generation + n

pub stop-IsPast :
    (c : Bool) (s : WsClient)
    → own_all s.generation s.socket s.effects ≡ true
    → s.generation + 1 < 2 ^ 64
    → IsPast (stop c s) × ((stop c s).generation ≡ suc s.generation)
unfolding stop
stop-IsPast c s v h =
    (record { operations = later c; down = refl }, next_generation_lem s.generation h)
  where
    closed :
        own_all (next_generation s.generation) none (
          close_of s.socket
            (cancel_stage_timer ∷ cancel_keepalive_timer ∷ cancel_reconnect_timer ∷ s.effects))
        ≡ true
    closed =
        own_all_close (next_generation s.generation) none s.socket
          (cancel_stage_timer ∷ cancel_keepalive_timer ∷ cancel_reconnect_timer ∷ s.effects)
        ∙ own_all_later s.generation (next_generation s.generation) s.socket none s.effects
            (omega (arith, next_generation_lem s.generation h)) v

    later : (c : Bool) → own_all (stop c s).generation none (stop c s).effects ≡ true
    later true = closed
    later false = closed

arm_reconnect-IsPast :
    (delay : ℤ) (s : WsClient)
    → IsPast s
    → IsPast (arm_reconnect delay s) × ((arm_reconnect delay s).generation ≡ s.generation)
unfolding arm_reconnect
arm_reconnect-IsPast delay s v =
    (record { operations = logged s.has_handlers; down = v.down }, refl)
  where
    closed :
        own_all s.generation none
          (close_of s.socket (cancel_keepalive_timer ∷ cancel_stage_timer ∷ s.effects))
        ≡ true
    closed =
        own_all_close s.generation none s.socket
          (cancel_keepalive_timer ∷ cancel_stage_timer ∷ s.effects)
        ∙ v.operations

    logged :
        (b : Bool)
        → own_all s.generation none (
            if b
            then call_on_log "reconnecting"
              ∷ close_of s.socket (cancel_keepalive_timer ∷ cancel_stage_timer ∷ s.effects)
            else close_of s.socket (cancel_keepalive_timer ∷ cancel_stage_timer ∷ s.effects))
          ≡ true
    logged true = closed
    logged false = closed

-- A step from a past state: it stays past, with a few new generations.
abbrev pub PastStep : ℕ → WsClient → WsClient → Type 0
PastStep n s t = IsPast t × Within n s t

stopped_step : (s : WsClient) → IsPast s → s.generation + 1 < 2 ^ 64 → PastStep 1 s (stop false s)
stopped_step s v h =
    let (past, g) =
      stop-IsPast false s (own_all_any s.generation s.socket s.effects v.operations) h in
    (past, record { least = omega arith; most = omega arith })

armed_step : (delay : ℤ) (s : WsClient) → IsPast s → PastStep 1 s (arm_reconnect delay s)
armed_step delay s v =
    let (past, g) = arm_reconnect-IsPast delay s v in
    (past, record { least = omega arith; most = omega arith })

by_policy-IsPast :
    (d : Option ℤ) (s : WsClient)
    → IsPast s
    → s.generation + 1 < 2 ^ 64
    → PastStep 1 s (by_policy d s)
unfolding by_policy
by_policy-IsPast none s v h = stopped_step s v h
by_policy-IsPast (some (negsuc n)) s v h = stopped_step s v h
by_policy-IsPast (some (pos n)) s v h = armed_step (pos n) s v

pub schedule_reconnect-IsPast :
    (env : Environment) (f : WsFailure) (s : WsClient)
    → IsPast s
    → s.generation + 1 < 2 ^ 64
    → PastStep 1 s (schedule_reconnect env f s)
unfolding schedule_reconnect
schedule_reconnect-IsPast env f s v h =
    if_case (PastStep 1 s) (s.stopped || s.reconnect_scheduled) {x = s}
      (λ _. (v, record { least = omega arith; most = omega arith }))
      (λ _.
        if_case (PastStep 1 s) s.has_handlers
          (λ _. elim (Option-cases env.failure_policy) [
            | inl n ↦ rw n (armed_step _ s v)
            | inr (policy, e) ↦ rw e (by_policy-IsPast (policy f) s v h)
          ])
          (λ _. armed_step _ s v))
