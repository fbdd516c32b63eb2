-- ===== src/Net/WriteQueue/Retained.antt =====
-- Which frames outlive a connection: application messages do, frames of another connection do not.
use polymarket_cpp.Prelude.{
  ◌-◌, ℕ, ◌≡◌, refl, sym, ◌∙◌, ap, Bool, true, false, List, [], ◌∷◌, ◌++◌, arith, Bytes, length,
  filter, filter-append, append-nil, append_assoc, All, All-append, Bool-cases, inl, inr, leb,
  if◌then◌else◌,
}
use polymarket_cpp.Net.WriteQueue.{
  Payload, complete, Entry, WsWriteQueue, make_entry, push_retained, push_connection,
  add_connection, discard_connection_writes, discard_stale_connection_writes, Call,
  push_retained_call, push_connection_call, discard_connection_call, discard_stale_call,
  complete_call, clear_call, run_call, run_calls, is_connection_write, is_stale_write, erase_if,
}
use polymarket_cpp.Net.WriteQueue.Bounds.{All-erase_address, is_retained, retained}

-- The calls that serve one connection: none of them is for an application message.
abbrev pub IsConnectionCall : Call → Type 0
IsConnectionCall (push_connection_call text g priority) = Unit {0}
IsConnectionCall (discard_connection_call g) = Unit {0}
IsConnectionCall (discard_stale_call g) = Unit {0}
IsConnectionCall _ = ⊥

-- Every call but `complete` and `clear`.
abbrev pub IsKeeping : Call → Type 0
IsKeeping (complete_call p) = ⊥
IsKeeping clear_call = ⊥
IsKeeping _ = Unit {0}

retained-erase_if :
    (p : Entry → Bool) (es : List Entry)
    → ((e : Entry) → e.connection_scoped ≡ false → p e ≡ false)
    → filter is_retained (erase_if p es) ≡ filter is_retained es
retained-erase_if p [] h = refl
retained-erase_if p (e ∷ es) h = ground (arith, h e, retained-erase_if p es h)

retained-add_connection :
    (text : Bytes) (g : ℕ) (priority : Bool) (q : WsWriteQueue)
    → retained (add_connection text g priority q).0 ≡ retained q
unfolding add_connection
retained-add_connection text g true q = ground arith
retained-add_connection text g false q = ground (
  arith,
  filter-append is_retained q.entries (make_entry q text true g ∷ []),
  append-nil (retained q),
)

-- Connection frames and their removal leave the waiting application messages as they are.
pub retained-run_call :
    (c : Call) (q : WsWriteQueue) → IsConnectionCall c → retained (run_call c q) ≡ retained q
unfolding run_call push_connection discard_connection_writes discard_stale_connection_writes
retained-run_call (push_connection_call text g priority) q k =
    retained-add_connection text g priority (discard_stale_connection_writes g q)
    ∙ retained-erase_if (is_stale_write g) q.entries (λ e h. ground arith)
retained-run_call (discard_connection_call g) q k =
    retained-erase_if (is_connection_write g) q.entries (λ e h. ground arith)
retained-run_call (discard_stale_call g) q k =
    retained-erase_if (is_stale_write g) q.entries (λ e h. ground arith)
retained-run_call (push_retained_call text) q k = absurd k
retained-run_call (complete_call p) q k = absurd k
retained-run_call clear_call q k = absurd k

retained-push_retained :
    (text : Bytes) (q : WsWriteQueue)
    → retained (push_retained text q).0
      ≡ retained q ++ (if (push_retained text q).1 then make_entry q text false 0 ∷ [] else [])
unfolding push_retained
retained-push_retained text q = ground (
  arith,
  filter-append is_retained q.entries (make_entry q text false 0 ∷ []),
  append-nil (retained q),
)

-- What one call that keeps messages adds behind them.
run_call-extends :
    (c : Call) (q : WsWriteQueue)
    → IsKeeping c
    → (added : List Entry) × (retained (run_call c q) ≡ retained q ++ added)
unfolding run_call
run_call-extends (push_retained_call text) q k = (_, retained-push_retained text q)
run_call-extends (push_connection_call text g priority) q k =
    ([], retained-run_call (push_connection_call text g priority) q tt ∙ sym (append-nil _))
run_call-extends (discard_connection_call g) q k =
    ([], retained-run_call (discard_connection_call g) q tt ∙ sym (append-nil _))
run_call-extends (discard_stale_call g) q k =
    ([], retained-run_call (discard_stale_call g) q tt ∙ sym (append-nil _))
run_call-extends (complete_call p) q k = absurd k
run_call-extends clear_call q k = absurd k

-- Over any calls but `complete` and `clear` (pushes of both kinds, discards at a reconnect), the
-- waiting application messages stay, in order, and new ones go behind them.
pub retained_survive :
    (cs : List Call) (q : WsWriteQueue)
    → All IsKeeping cs
    → (added : List Entry) × (retained (run_calls cs q) ≡ retained q ++ added)
unfolding run_calls
retained_survive [] q h = ([], sym (append-nil _))
retained_survive (c ∷ cs) q h =
    let (first, e) = run_call-extends c q h.0 in
    let (rest, e') = retained_survive cs (run_call c q) h.1 in
    (first ++ rest, e' ∙ ap (λ l. l ++ rest) e ∙ append_assoc (retained q) first rest)

-- A frame is kept for every connection, or belongs to connection `g`.
abbrev pub IsCurrent : ℕ → Entry → Type 0
IsCurrent g e = e.connection_scoped ≡ true → e.generation ≡ g

pub erase_if-IsCurrent :
    (g : ℕ) (es : List Entry) → All (IsCurrent g) (erase_if (is_stale_write g) es)
erase_if-IsCurrent g [] = tt
erase_if-IsCurrent g (e ∷ es) = elim (Bool-cases (is_stale_write g e)) [
  | inl k ↦ rw k (erase_if-IsCurrent g es)
  | inr k ↦ rw k ((λ h. ground arith), erase_if-IsCurrent g es)
]

add_connection-IsCurrent :
    (text : Bytes) (g : ℕ) (priority : Bool) (q : WsWriteQueue)
    → All (IsCurrent g) q.entries
    → All (IsCurrent g) (add_connection text g priority q).0.entries
unfolding add_connection
add_connection-IsCurrent text g priority q h =
    elim (Bool-cases (leb q.capacity (length q.entries))) [
      | inl full ↦ rw full h
      | inr room ↦ rw room (placed priority)
    ]
  where
    placed :
        (priority : Bool)
        → All (IsCurrent g) (
            if priority
            then make_entry q text true g ∷ q.entries
            else q.entries ++ make_entry q text true g ∷ [])
    placed true = ((λ _. refl), h)
    placed false = All-append (IsCurrent g) q.entries _ h ((λ _. refl), tt)

-- A push for connection `g`, accepted or not, leaves no frame of another connection in the queue.
pub push_connection-IsCurrent :
    (text : Bytes) (g : ℕ) (priority : Bool) (q : WsWriteQueue)
    → All (IsCurrent g) (push_connection text g priority q).0.entries
unfolding push_connection discard_stale_connection_writes
push_connection-IsCurrent text g priority q =
    add_connection-IsCurrent text g priority _ (erase_if-IsCurrent g q.entries)

-- Once connection `g` is discarded, no frame of it is left.
pub discard-Lacks :
    (g : ℕ) (q : WsWriteQueue)
    → All (λ e. is_connection_write g e ≡ false) (discard_connection_writes g q).entries
unfolding discard_connection_writes
discard-Lacks g q = go q.entries
  where
    go :
        (es : List Entry)
        → All (λ e. is_connection_write g e ≡ false) (erase_if (is_connection_write g) es)
    go [] = tt
    go (e ∷ es) = elim (Bool-cases (is_connection_write g e)) [
      | inl k ↦ rw k (go es)
      | inr k ↦ rw k (k, go es)
    ]

pub discard_stale-IsCurrent :
    (g : ℕ) (q : WsWriteQueue) → All (IsCurrent g) (discard_stale_connection_writes g q).entries
unfolding discard_stale_connection_writes
discard_stale-IsCurrent g q = erase_if-IsCurrent g q.entries

pub push_retained-IsCurrent :
    (text : Bytes) (g : ℕ) (q : WsWriteQueue)
    → All (IsCurrent g) q.entries
    → All (IsCurrent g) (push_retained text q).0.entries
unfolding push_retained
push_retained-IsCurrent text g q h =
    elim (Bool-cases (leb (q.capacity - q.connection_reserve) (length q.entries))) [
      | inl full ↦ rw full h
      | inr room ↦ rw room (All-append (IsCurrent g) q.entries _ h ((λ e. cc), tt))
    ]

pub complete-IsCurrent :
    (p : Payload) (g : ℕ) (q : WsWriteQueue)
    → All (IsCurrent g) q.entries
    → All (IsCurrent g) (complete p q).entries
unfolding complete
complete-IsCurrent p g q h = All-erase_address p.address (IsCurrent g) q.entries h
