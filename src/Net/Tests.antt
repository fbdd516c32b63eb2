-- ===== src/Net/Tests.antt =====
-- The queue's theorems applied to concrete queues.
pub mod Clients
use polymarket_cpp.Prelude.{ℕ, ◌≡◌, refl, true, false, List, [], ◌∷◌, ◌++◌, All, codes, arith}
use polymarket_cpp.Net.WriteQueue.{
  Entry, WsWriteQueue, make_queue, push_connection, complete, run_call, run_calls,
  push_retained_call, push_connection_call,
}
use polymarket_cpp.Net.WriteQueue.Bounds.{IsValid, retained, run_calls-IsValid}
use polymarket_cpp.Net.WriteQueue.Retained.{IsCurrent, retained-run_call, retained_survive}
use polymarket_cpp.Net.WriteQueue.Completion.{complete-split}

abbrev frame : ℕ → Entry
frame n = record {
  payload = record { address = n; text = codes "PING" };
  connection_scoped = true;
  generation = 7;
}

abbrev order : ℕ → Entry
order n = record {
  payload = record { address = n; text = codes "order" };
  connection_scoped = false;
  generation = 0;
}

abbrev waiting : WsWriteQueue
waiting = record {
  capacity = 4;
  connection_reserve = 1;
  entries = order 0 ∷ frame 1 ∷ order 2 ∷ [];
  next_address = 3;
}

waiting-IsValid : IsValid waiting
waiting-IsValid = record {
  reserved = omega arith;
  bounded = omega arith;
  retained_bounded = omega arith;
  below = omega arith;
  distinct = omega arith;
}

run_calls-IsValid_example : IsValid (
    run_calls
      (push_retained_call (codes "a") ∷ push_connection_call (codes "b") 1 true ∷ [])
      (make_queue 2 1))
run_calls-IsValid_example =
    run_calls-IsValid 2 1
      (push_retained_call (codes "a") ∷ push_connection_call (codes "b") 1 true ∷ [])

retained-run_call_example :
    retained (run_call (push_connection_call (codes "b") 8 true) waiting) ≡ retained waiting
retained-run_call_example = retained-run_call (push_connection_call (codes "b") 8 true) waiting tt

retained_survive_example :
    (added : List Entry) × (retained (
        run_calls
          (push_connection_call (codes "b") 8 true ∷ push_retained_call (codes "c") ∷ [])
          waiting)
      ≡ retained waiting ++ added)
retained_survive_example =
    retained_survive (push_connection_call (codes "b") 8 true ∷ push_retained_call (codes "c") ∷ [])
      waiting (tt, (tt, tt))

complete-split_example :
    (complete (frame 1).payload waiting).entries ≡ (order 0 ∷ []) ++ (order 2 ∷ [])
complete-split_example =
    complete-split waiting (frame 1) (order 0 ∷ []) (order 2 ∷ []) waiting-IsValid refl
