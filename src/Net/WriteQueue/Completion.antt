-- ===== src/Net/WriteQueue/Completion.antt =====
-- `complete` and the frame that was written.
use polymarket_cpp.Prelude.{ℕ, ◌≡◌, ◌≢◌, refl, subst, List, [], ◌∷◌, ◌++◌, arith}
use polymarket_cpp.Net.WriteQueue.{Entry, Payload, WsWriteQueue, complete, erase_address}
use polymarket_cpp.Net.WriteQueue.Bounds.{IsValid, Lacks, Distinct}

erase_address-split :
    (e : Entry) (xs ys : List Entry)
    → Distinct (xs ++ e ∷ ys)
    → erase_address e.payload.address (xs ++ e ∷ ys) ≡ xs ++ ys
unfolding erase_address
erase_address-split e [] ys d = ground arith
erase_address-split e (x ∷ xs) ys d = ground (arith, apart xs d.0, erase_address-split e xs ys d.1)
  where
    apart :
        (zs : List Entry)
        → Lacks x.payload.address (zs ++ e ∷ ys)
        → e.payload.address ≢ x.payload.address
    apart [] h = h.0
    apart (z ∷ zs) h = apart zs h.1

-- In a valid queue `complete` removes exactly the entry that holds the payload, wherever it
-- stands: a priority frame that was put in front while the write ran is kept.
pub complete-split :
    (q : WsWriteQueue) (e : Entry) (xs ys : List Entry)
    → IsValid q
    → q.entries ≡ xs ++ e ∷ ys
    → (complete e.payload q).entries ≡ xs ++ ys
unfolding complete
complete-split q e xs ys v h = rw h (erase_address-split e xs ys (subst Distinct h v.distinct))

erase_address-absent : (a : ℕ) (es : List Entry) → Lacks a es → erase_address a es ≡ es
unfolding erase_address
erase_address-absent a [] h = refl
erase_address-absent a (e ∷ es) h = ground (arith, erase_address-absent a es h.1, h.0)

-- A completion for a payload that is in the queue no more changes nothing.
pub complete-absent :
    (q : WsWriteQueue) (p : Payload)
    → Lacks p.address q.entries
    → (complete p q).entries ≡ q.entries
unfolding complete
complete-absent q p h = erase_address-absent p.address q.entries h
