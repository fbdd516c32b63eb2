-- ===== src/Net/WsClient/Generations.antt =====
-- Steps of `WsClient` that keep operations on their streams, and the writes.
use polymarket_cpp.Prelude.{
  ℕ, ◌+◌, ◌^◌, ◌≤◌, ◌<◌, ◌≡◌, refl, ◌∙◌, Bool, true, false, ◌&&◌, ◌||◌, not, Option, none, some,
  List, [], ◌∷◌, Bytes, String, arith, ◌==◌, if_case, Option-cases, inl, inr,
}
use polymarket_cpp.Net.WriteQueue.{
  WsWriteQueue, push_retained, push_connection, empty, front_payload,
}
use polymarket_cpp.Net.WsClient.State.{Dispatched, WsClient, next_generation, log}
use polymarket_cpp.Net.WsClient.Handlers.{
  stop, do_write, write_if_idle, write_unless_writing, write_waiting, pushed, send, send_first,
}
use polymarket_cpp.Net.WsClient.Fresh.{
  holds, owned, own_all, IsFresh, own_all_later, IsPast-IsFresh, next_generation_lem, Within,
  stop-IsPast, PastStep,
}

-- A step of at most `n` new generations; the stream changes only with the generation.
pub record Step (n : ℕ) (s t : WsClient) : Type 0 where
  pub fresh : IsFresh t
  pub within : Within n s t
  pub same : t.generation ≡ s.generation → t.socket ≡ s.socket

pub unchanged : (n : ℕ) (s : WsClient) → IsFresh s → Step n s s
unchanged n s v = record {
  fresh = v;
  within = record { least = omega arith; most = omega arith };
  same = λ e. refl;
}

pub then_step : (n m : ℕ) (s t u : WsClient) → Step n s t → Step m t u → Step (n + m) s u
then_step n m s t u a b =
    let l1 = a.within.least in
    let m1 = a.within.most in
    let l2 = b.within.least in
    let m2 = b.within.most in
    record {
      fresh = b.fresh;
      within = record { least = omega arith; most = omega arith };
      same = λ e. b.same (omega arith) ∙ a.same (omega arith);
    }

-- Past states are of a later generation.
pub climbed :
    (m n : ℕ) (s t u : WsClient)
    → s.generation < t.generation
    → t.generation ≤ s.generation + m
    → PastStep n t u
    → Step (m + n) s u
climbed m n s t u h k (past, within) =
    let l = within.least in
    let w = within.most in
    record {
      fresh = IsPast-IsFresh u past;
      within = record { least = omega arith; most = omega arith };
      same = λ e. absurd (omega arith);
    }

pub own_all-log :
    (n : ℕ) (k : Option ℕ) (text : String) (s : WsClient)
    → own_all n k (log text s).effects ≡ own_all n k s.effects
own_all-log n k text s =
    if_case (λ es. own_all n k es ≡ own_all n k s.effects) s.has_handlers (λ _. refl) (λ _. refl)

pub own_all_past :
    (s : WsClient)
    → IsFresh s
    → s.generation + 1 < 2 ^ 64
    → own_all (next_generation s.generation) none s.effects ≡ true
own_all_past s v h =
    own_all_later s.generation (next_generation s.generation) s.socket none s.effects
      (omega (arith, next_generation_lem s.generation h)) v.operations

pub stop-Step :
    (c : Bool) (s : WsClient) → IsFresh s → s.generation + 1 < 2 ^ 64 → Step 1 s (stop c s)
stop-Step c s v h =
    let (past, g) = stop-IsPast c s v.operations h in
    record {
      fresh = IsPast-IsFresh (stop c s) past;
      within = record { least = omega arith; most = omega arith };
      same = λ e. absurd (omega arith);
    }

own_write : (n g : ℕ) (k : Option ℕ) → (g == n) ≡ true → holds k n ≡ true → owned n k g ≡ true
own_write n g none e h = absurd (ground arith)
own_write n g (some k) e h = ground arith

pub do_write-Step : (g : ℕ) (s : WsClient) → IsFresh s → Step 0 s (do_write g s)
unfolding do_write
do_write-Step g s v =
    if_case (Step 0 s) (not (g == s.generation) || empty s.write_queue || not s.connected)
      (λ _. idle)
      (λ e. elim (Option-cases (front_payload s.write_queue)) [
        | inl n ↦ rw n idle
        | inr (p, f) ↦
            let mine =
              own_write s.generation g s.socket
                (first_true (g == s.generation) (empty s.write_queue) s.connected e)
                (v.up (last_true (g == s.generation) (empty s.write_queue) s.connected e)) in
            rw f (record {
              fresh = record {
                operations =
                    both (owned s.generation s.socket g) (own_all s.generation s.socket s.effects)
                      mine v.operations;
                up = v.up;
              };
              within = record { least = omega arith; most = omega arith };
              same = λ e. refl;
            })
      ])
  where
    idle : Step 0 s (record s { writing = false })
    idle = record {
      fresh = record { operations = v.operations; up = v.up };
      within = record { least = omega arith; most = omega arith };
      same = λ e. refl;
    }

    first_true : (a b c : Bool) → (not a || b || not c) ≡ false → a ≡ true
    first_true a b c h = ground arith

    last_true : (a b c : Bool) → (not a || b || not c) ≡ false → c ≡ true
    last_true a b c h = ground arith

    both : (a b : Bool) → a ≡ true → b ≡ true → (a && b) ≡ true
    both a b h k = ground arith

pub queued : (q : WsWriteQueue) (s : WsClient) → IsFresh s → Step 0 s (record s { write_queue = q })
queued q s v = record {
  fresh = record { operations = v.operations; up = v.up };
  within = record { least = omega arith; most = omega arith };
  same = λ e. refl;
}

pub logged : (text : String) (s : WsClient) → IsFresh s → Step 0 s (log text s)
logged text s v = record {
  fresh = record {
    operations = own_all-log s.generation s.socket text s ∙ v.operations;
    up = v.up;
  };
  within = record { least = omega arith; most = omega arith };
  same = λ e. refl;
}

write_if_idle-Step : (s : WsClient) → IsFresh s → Step 0 s (write_if_idle s)
write_if_idle-Step s v =
    if_case (Step 0 s) (s.connected && not s.writing) (λ _. do_write-Step s.generation s v)
      (λ _. unchanged 0 s v)

pub write_unless_writing-Step : (s : WsClient) → IsFresh s → Step 0 s (write_unless_writing s)
write_unless_writing-Step s v =
    if_case (Step 0 s) s.writing (λ _. unchanged 0 s v) (λ _. do_write-Step s.generation s v)

pub write_waiting-Step : (g : ℕ) (s : WsClient) → IsFresh s → Step 0 s (write_waiting g s)
write_waiting-Step g s v =
    if_case (Step 0 s) (empty s.write_queue || s.writing) (λ _. unchanged 0 s v)
      (λ _. do_write-Step g s v)

pub pushed-Step :
    (text : String) (s : WsClient) (r : WsWriteQueue × Bool)
    → IsFresh s
    → Step 0 s (pushed text s r)
pushed-Step text s (q, true) v =
    let a = queued q s v in
    then_step 0 0 s _ _ a (write_if_idle-Step (record s { write_queue = q }) a.fresh)
pushed-Step text s (q, false) v =
    let a = queued q s v in
    then_step 0 0 s _ _ a (logged text (record s { write_queue = q }) a.fresh)

pub send-Step : (text : Bytes) (s : WsClient) → IsFresh s → Step 0 s (send text s)
unfolding send
send-Step text s v = pushed-Step _ s (push_retained text s.write_queue) v

pub send_first-Step : (text : Bytes) (s : WsClient) → IsFresh s → Step 0 s (send_first text s)
unfolding send_first
send_first-Step text s v = pushed-Step _ s (push_connection text s.generation true s.write_queue) v

-- The new generations that calls made back by a callback may take.
abbrev pub cost : List Dispatched → ℕ
cost [] = 0
cost (c ∷ cs) = 3 + cost cs

pub widen : (n m : ℕ) (s t : WsClient) → n ≤ m → Step n s t → Step m s t
widen n m s t h a =
    let w = a.within.most in
    record {
      fresh = a.fresh;
      within = record { least = a.within.least; most = omega arith };
      same = a.same;
    }

pub chain : (k n m : ℕ) (s t u : WsClient) → n + m ≤ k → Step n s t → Step m t u → Step k s u
chain k n m s t u h a b = widen (n + m) k s u h (then_step n m s t u a b)
