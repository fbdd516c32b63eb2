-- ===== src/Net/WriteQueue/Bounds.antt =====
-- The bounds of the queue and the freshness of its addresses, over every history of calls.
use polymarket_cpp.Prelude.{
  ℕ, suc, ◌+◌, ◌-◌, ◌≤◌, ◌<◌, ◌≡◌, ◌≢◌, Bool, true, false, not, List, [], ◌∷◌, ◌++◌, arith, Bytes,
  length, filter, length-append, length-filter-le, filter-append, All, All-append, Bool-cases, inl,
  inr, if◌then◌else◌, ◌==◌, leb,
}
use polymarket_cpp.Net.WriteQueue.{
  Entry, Payload, WsWriteQueue, make_entry, make_queue, push_retained, push_connection,
  add_connection, discard_connection_writes, discard_stale_connection_writes, complete,
  erase_address, clear, Call, push_retained_call, push_connection_call, discard_connection_call,
  discard_stale_call, complete_call, clear_call, run_call, run_calls, is_connection_write,
  is_stale_write,
}

abbrev pub is_retained : Entry → Bool
is_retained e = not e.connection_scoped

-- The application messages that wait, oldest first.
abbrev pub retained : WsWriteQueue → List Entry
retained q = filter is_retained q.entries

-- Addresses are below the next fresh one, and no two entries share one.
abbrev pub Below : ℕ → List Entry → Type 0
Below n = All (λ e. e.payload.address < n)

abbrev pub Lacks : ℕ → List Entry → Type 0
Lacks a = All (λ e. e.payload.address ≢ a)

abbrev pub Distinct : List Entry → Type 0
Distinct [] = Unit {0}
Distinct (e ∷ es) = Lacks e.payload.address es × Distinct es

pub record IsValid (q : WsWriteQueue) : Type 0 where
  pub reserved : q.connection_reserve ≤ q.capacity
  pub bounded : length q.entries ≤ q.capacity
  pub retained_bounded : length (retained q) + q.connection_reserve ≤ q.capacity
  pub below : Below q.next_address q.entries
  pub distinct : Distinct q.entries

All-mono :
    {P Q : Entry → Type 0} (es : List Entry) → ((e : Entry) → P e → Q e) → All P es → All Q es
All-mono [] f h = tt
All-mono (e ∷ es) f h = (f e h.0, All-mono es f h.1)

All-filter :
    (P : Entry → Type 0) (p : Entry → Bool) (es : List Entry) → All P es → All P (filter p es)
All-filter P p [] h = tt
All-filter P p (e ∷ es) h = elim (Bool-cases (p e)) [
  | inl k ↦ rw k (h.0, All-filter P p es h.1)
  | inr k ↦ rw k (All-filter P p es h.1)
]

Distinct-filter : (p : Entry → Bool) (es : List Entry) → Distinct es → Distinct (filter p es)
Distinct-filter p [] h = tt
Distinct-filter p (e ∷ es) h = elim (Bool-cases (p e)) [
  | inl k ↦ rw k (All-filter _ p es h.0, Distinct-filter p es h.1)
  | inr k ↦ rw k (Distinct-filter p es h.1)
]

Distinct-snoc :
    (e : Entry) (es : List Entry)
    → Distinct es
    → Below e.payload.address es
    → Distinct (es ++ e ∷ [])
Distinct-snoc e [] d b = (tt, tt)
Distinct-snoc e (x ∷ es) d b =
    (All-append _ es (e ∷ []) d.0 ((omega arith), tt), Distinct-snoc e es d.1 b.1)

Below-suc : (n : ℕ) (es : List Entry) → Below n es → Below (suc n) es
Below-suc n es b = All-mono es (λ e h. omega arith) b

Lacks-of_Below : (n : ℕ) (es : List Entry) → Below n es → Lacks n es
Lacks-of_Below n es b = All-mono es (λ e h. omega arith) b

retained-filter-le :
    (p : Entry → Bool) (es : List Entry)
    → length (filter is_retained (filter p es)) ≤ length (filter is_retained es)
retained-filter-le p [] = omega arith
retained-filter-le p (e ∷ es) = ground (arith, retained-filter-le p es)

filter-IsValid :
    (p : Entry → Bool) (q : WsWriteQueue)
    → IsValid q
    → IsValid (record q { entries = filter p q.entries })
filter-IsValid p q v = record {
  reserved = v.reserved;
  bounded = omega (arith, v.bounded, length-filter-le p q.entries);
  retained_bounded = omega (arith, v.retained_bounded, retained-filter-le p q.entries);
  below = All-filter _ p q.entries v.below;
  distinct = Distinct-filter p q.entries v.distinct;
}

module _ (a : ℕ) where
  length-erase_address-le : (es : List Entry) → length (erase_address a es) ≤ length es
  unfolding erase_address
  length-erase_address-le [] = omega arith
  length-erase_address-le (e ∷ es) = ground (arith, length-erase_address-le es)

  retained-erase_address-le :
      (es : List Entry)
      → length (filter is_retained (erase_address a es)) ≤ length (filter is_retained es)
  unfolding erase_address
  retained-erase_address-le [] = omega arith
  retained-erase_address-le (e ∷ es) = ground (arith, retained-erase_address-le es)

  pub All-erase_address :
      (P : Entry → Type 0) (es : List Entry) → All P es → All P (erase_address a es)
  unfolding erase_address
  All-erase_address P [] h = tt
  All-erase_address P (e ∷ es) h = elim (Bool-cases (e.payload.address == a)) [
    | inl k ↦ rw k h.1
    | inr k ↦ rw k (h.0, All-erase_address P es h.1)
  ]

  Distinct-erase_address : (es : List Entry) → Distinct es → Distinct (erase_address a es)
  unfolding erase_address
  Distinct-erase_address [] h = tt
  Distinct-erase_address (e ∷ es) h = elim (Bool-cases (e.payload.address == a)) [
    | inl k ↦ rw k h.1
    | inr k ↦ rw k (All-erase_address _ es h.0, Distinct-erase_address es h.1)
  ]

complete-IsValid : (p : Payload) (q : WsWriteQueue) → IsValid q → IsValid (complete p q)
unfolding complete
complete-IsValid p q v = record {
  reserved = v.reserved;
  bounded = omega (arith, v.bounded, length-erase_address-le p.address q.entries);
  retained_bounded =
      omega (arith, v.retained_bounded, retained-erase_address-le p.address q.entries);
  below = All-erase_address p.address _ q.entries v.below;
  distinct = Distinct-erase_address p.address q.entries v.distinct;
}

-- An entry that is added at the back.
snoc-IsValid :
    (q : WsWriteQueue) (text : Bytes) (scoped : Bool) (g : ℕ)
    → IsValid q
    → length q.entries < q.capacity
    → (scoped ≡ false → length (retained q) + q.connection_reserve < q.capacity)
    → IsValid (record q {
      entries = q.entries ++ make_entry q text scoped g ∷ [];
      next_address = suc q.next_address;
    })
snoc-IsValid q text scoped g v room extra = record {
  reserved = v.reserved;
  bounded = omega (arith, length-append q.entries (make_entry q text scoped g ∷ []));
  retained_bounded = kept;
  below = All-append _ q.entries _ (Below-suc _ q.entries v.below) (omega arith);
  distinct = Distinct-snoc _ q.entries v.distinct v.below;
}
  where
    kept :
        length (filter is_retained (q.entries ++ make_entry q text scoped g ∷ []))
          + q.connection_reserve
        ≤ q.capacity
    kept = rw (filter-append is_retained q.entries (make_entry q text scoped g ∷ [])) (
        rw (length-append (retained q) (filter is_retained (make_entry q text scoped g ∷ [])))
          (elim (Bool-cases scoped) [
            | inl k ↦ rw k (omega (arith, v.retained_bounded))
            | inr k ↦ rw k (omega (arith, extra k))
          ]))

cons-IsValid :
    (q : WsWriteQueue) (text : Bytes) (g : ℕ)
    → IsValid q
    → length q.entries < q.capacity
    → IsValid (record q {
      entries = make_entry q text true g ∷ q.entries;
      next_address = suc q.next_address;
    })
cons-IsValid q text g v room = record {
  reserved = v.reserved;
  bounded = omega arith;
  retained_bounded = v.retained_bounded;
  below = (omega arith, Below-suc _ q.entries v.below);
  distinct = (Lacks-of_Below _ q.entries v.below, v.distinct);
}

push_retained-IsValid :
    (text : Bytes) (q : WsWriteQueue) → IsValid q → IsValid (push_retained text q).0
unfolding push_retained
push_retained-IsValid text q v =
    elim (Bool-cases (leb (q.capacity - q.connection_reserve) (length q.entries))) [
      | inl full ↦ rw full v
      | inr room ↦
          let k : length q.entries < q.capacity - q.connection_reserve = ground arith in
          rw room (
            snoc-IsValid q text false 0 v (omega arith)
              (λ _. omega (arith, v.reserved, length-filter-le is_retained q.entries)))
    ]

add_connection-IsValid :
    (text : Bytes) (g : ℕ) (priority : Bool) (q : WsWriteQueue)
    → IsValid q
    → IsValid (add_connection text g priority q).0
unfolding add_connection
add_connection-IsValid text g priority q v = elim (Bool-cases (leb q.capacity (length q.entries))) [
  | inl full ↦ rw full v
  | inr room ↦ rw room (placed priority (ground arith))
]
  where
    placed :
        (priority : Bool)
        → length q.entries < q.capacity
        → IsValid (record q {
          entries =
              if priority
              then make_entry q text true g ∷ q.entries
              else q.entries ++ make_entry q text true g ∷ [];
          next_address = suc q.next_address;
        })
    placed true k = cons-IsValid q text g v k
    placed false k = snoc-IsValid q text true g v k (λ e. cc)

pub run_call-IsValid : (c : Call) (q : WsWriteQueue) → IsValid q → IsValid (run_call c q)
unfolding run_call push_connection discard_connection_writes discard_stale_connection_writes clear
run_call-IsValid (push_retained_call text) q v = push_retained-IsValid text q v
run_call-IsValid (push_connection_call text g priority) q v =
    add_connection-IsValid text g priority _ (filter-IsValid (λ e. not (is_stale_write g e)) q v)
run_call-IsValid (discard_connection_call g) q v =
    filter-IsValid (λ e. not (is_connection_write g e)) q v
run_call-IsValid (discard_stale_call g) q v = filter-IsValid (λ e. not (is_stale_write g e)) q v
run_call-IsValid (complete_call p) q v = complete-IsValid p q v
run_call-IsValid clear_call q v = record {
  reserved = v.reserved;
  bounded = omega arith;
  retained_bounded = omega (arith, v.reserved);
  below = tt;
  distinct = tt;
}

pub run_calls_keep_IsValid :
    (cs : List Call) (q : WsWriteQueue) → IsValid q → IsValid (run_calls cs q)
unfolding run_calls
run_calls_keep_IsValid [] q v = v
run_calls_keep_IsValid (c ∷ cs) q v =
    run_calls_keep_IsValid cs (run_call c q) (run_call-IsValid c q v)

pub make_queue-IsValid : (capacity reserve : ℕ) → IsValid (make_queue capacity reserve)
unfolding make_queue
make_queue-IsValid capacity reserve = record {
  reserved = omega arith;
  bounded = omega arith;
  retained_bounded = omega arith;
  below = tt;
  distinct = tt;
}

-- After any history of calls on a new queue: the entries fit the capacity, the retained messages
-- leave the connection reserve free, and no two entries hold the same payload pointer.
pub run_calls-IsValid :
    (capacity reserve : ℕ) (cs : List Call) → IsValid (run_calls cs (make_queue capacity reserve))
run_calls-IsValid capacity reserve cs =
    run_calls_keep_IsValid cs _ (make_queue-IsValid capacity reserve)
