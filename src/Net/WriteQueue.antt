-- ===== src/Net/WriteQueue.antt =====
-- net/ws_write_queue.hpp: `WsWriteQueue`, the bounded queue of frames that wait for the socket.
-- A payload is a `shared_ptr`, compared by address: `make_shared` takes a fresh address, and
-- `complete` looks for an address and not for a text.
pub mod Bounds
pub mod Retained
pub mod Completion
use polymarket_cpp.Prelude.{
  ℕ, suc, ◌-◌, min, Bool, true, false, ◌&&◌, not, Option, none, some, List, [], ◌∷◌, ◌++◌, Bytes,
  length, filter, is_empty, leb, ◌==◌, if◌then◌else◌,
}

-- `shared_ptr<const std::string>`
pub record Payload : Type 0 where
  pub address : ℕ
  pub text : Bytes

pub record Entry : Type 0 where
  pub payload : Payload
  pub connection_scoped : Bool
  pub generation : ℕ

-- `next_address` is what the next `make_shared` returns.
pub record WsWriteQueue : Type 0 where
  pub capacity : ℕ
  pub connection_reserve : ℕ
  pub entries : List Entry
  pub next_address : ℕ

unfoldable pub make_queue : ℕ → ℕ → WsWriteQueue
make_queue capacity connection_reserve = record {
  capacity = capacity;
  connection_reserve = min connection_reserve capacity;
  entries = [];
  next_address = 0;
}

abbrev pub default_queue : WsWriteQueue
default_queue = record { capacity = 1024; connection_reserve = 16; entries = []; next_address = 0 }

-- The static member `entry`; the caller takes `next_address` forward.
abbrev pub make_entry : WsWriteQueue → Bytes → Bool → ℕ → Entry
make_entry q text scoped generation = record {
  payload = record { address = q.next_address; text = text };
  connection_scoped = scoped;
  generation = generation;
}

unfoldable pub push_retained : Bytes → WsWriteQueue → WsWriteQueue × Bool
push_retained text q =
    if leb (q.capacity - q.connection_reserve) (length q.entries) then (q, false) else (
      record q {
        entries = q.entries ++ make_entry q text false 0 ∷ [];
        next_address = suc q.next_address;
      },
      true,
    )

-- What `discard_connection_writes` erases.
abbrev pub is_connection_write : ℕ → Entry → Bool
is_connection_write generation e = e.connection_scoped && e.generation == generation

-- What `discard_stale_connection_writes` erases.
abbrev pub is_stale_write : ℕ → Entry → Bool
is_stale_write generation e = e.connection_scoped && not (e.generation == generation)

-- `std::erase_if`
abbrev pub erase_if : (Entry → Bool) → List Entry → List Entry
erase_if p es = filter (λ e. not (p e)) es

unfoldable pub discard_connection_writes : ℕ → WsWriteQueue → WsWriteQueue
discard_connection_writes generation q = record q {
  entries = erase_if (is_connection_write generation) q.entries;
}

unfoldable pub discard_stale_connection_writes : ℕ → WsWriteQueue → WsWriteQueue
discard_stale_connection_writes generation q = record q {
  entries = erase_if (is_stale_write generation) q.entries;
}

unfoldable pub add_connection : Bytes → ℕ → Bool → WsWriteQueue → WsWriteQueue × Bool
add_connection text generation priority q =
    if leb q.capacity (length q.entries) then (q, false) else (
      record q {
        entries =
            if priority
            then make_entry q text true generation ∷ q.entries
            else q.entries ++ make_entry q text true generation ∷ [];
        next_address = suc q.next_address;
      },
      true,
    )

-- Stale frames go first, also where the push is then refused.
unfoldable pub push_connection : Bytes → ℕ → Bool → WsWriteQueue → WsWriteQueue × Bool
unfolding add_connection
push_connection text generation priority q =
    add_connection text generation priority (discard_stale_connection_writes generation q)

abbrev pub empty : WsWriteQueue → Bool
empty q = is_empty q.entries

abbrev pub size : WsWriteQueue → ℕ
size q = length q.entries

abbrev first_payload : List Entry → Option Payload
first_payload [] = none
first_payload (e ∷ es) = some e.payload

-- `entries_.front().payload`; undefined behaviour on an empty queue is `none`.
unfoldable pub front_payload : WsWriteQueue → Option Payload
front_payload q = first_payload q.entries

abbrev rest_of : List Entry → Option (List Entry)
rest_of [] = none
rest_of (e ∷ es) = some es

-- Undefined behaviour on an empty queue is `none`.
unfoldable pub pop_front : WsWriteQueue → Option WsWriteQueue
pop_front q = elim (rest_of q.entries) [ none ↦ none | some es ↦ some (record q { entries = es }) ]

-- `std::ranges::find` and `erase`: the first entry at the address goes, if there is one.
unfoldable pub erase_address : ℕ → List Entry → List Entry
erase_address a [] = []
erase_address a (e ∷ es) = if e.payload.address == a then es else e ∷ erase_address a es

unfoldable pub complete : Payload → WsWriteQueue → WsWriteQueue
unfolding erase_address
complete payload q = record q { entries = erase_address payload.address q.entries }

unfoldable pub clear : WsWriteQueue → WsWriteQueue
clear q = record q { entries = [] }

-- The calls that change the queue.
pub data Call : Type 0 where
  push_retained_call : Bytes → Call
  push_connection_call : Bytes → ℕ → Bool → Call
  discard_connection_call discard_stale_call : ℕ → Call
  complete_call : Payload → Call
  clear_call : Call

unfoldable pub run_call : Call → WsWriteQueue → WsWriteQueue
run_call (push_retained_call text) q = (push_retained text q).0
run_call (push_connection_call text g priority) q = (push_connection text g priority q).0
run_call (discard_connection_call g) q = discard_connection_writes g q
run_call (discard_stale_call g) q = discard_stale_connection_writes g q
run_call (complete_call payload) q = complete payload q
run_call clear_call q = clear q

unfoldable pub run_calls : List Call → WsWriteQueue → WsWriteQueue
run_calls [] q = q
run_calls (c ∷ cs) q = run_calls cs (run_call c q)
