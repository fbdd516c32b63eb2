-- ===== src/Pm/Feeds/Opening.antt =====
-- `UserWs` over its `WsClient`: what a connection that has come up writes first.
use polymarket_cpp.Prelude.{
  ℕ, suc, ◌+◌, ◌≤◌, ◌≡◌, ◌≢◌, refl, ap, ◌∙◌, Bool, true, false, List, [], ◌∷◌, Bytes, length,
  filter, arith, All, ◌==◌, leb, none, some, Bool-cases, inl, inr, if◌then◌else◌,
}
use polymarket_cpp.Net.WriteQueue.{
  Payload, Entry, WsWriteQueue, make_entry, is_stale_write, erase_if,
  discard_stale_connection_writes, push_connection, add_connection, front_payload,
}
use polymarket_cpp.Net.WriteQueue.Bounds.{is_retained, retained, IsValid}
use polymarket_cpp.Net.WsClient.State.{
  Environment, WsClient, cancel_stage_timer, call_on_log, call_on_open, begin_write, begin_read,
  wait_keepalive_timer, ws_handshake,
}
use polymarket_cpp.Net.WsClient.Handlers.{
  opened, stage_done, stage_succeeded, run_on_open, run_all_dispatched, run_dispatched, send_first,
  do_write,
}
use polymarket_cpp.Net.WsClient.Events.{handle, stage_event}
use polymarket_cpp.Net.WsClient.Invariant.{IsValidClient}
use polymarket_cpp.Pm.Feeds.{Frame, user_initial}
use polymarket_cpp.Pm.Feeds.UserWs.{UserWs, app_calls, environment, on_open, send_initial}

-- A frame that waits for another connection, or for none.
abbrev pub IsForeign : ℕ → Entry → Type 0
IsForeign g e = e.connection_scoped ≡ true → e.generation ≢ g

-- Of such frames only the application's stay.
erase_foreign :
    (g : ℕ) (es : List Entry)
    → All (IsForeign g) es
    → erase_if (is_stale_write g) es ≡ filter is_retained es
erase_foreign g [] h = refl
erase_foreign g (e ∷ es) h = let f = h.0 in let ih = erase_foreign g es h.1 in ground arith

erase_retained :
    (g : ℕ) (es : List Entry)
    → erase_if (is_stale_write g) (filter is_retained es) ≡ filter is_retained es
erase_retained g [] = refl
erase_retained g (e ∷ es) =
    let ih = erase_retained g es in
    elim (Bool-cases (is_retained e)) [ inl k ↦ rw k (ground arith) | inr k ↦ rw k ih ]

-- The queue once the priority frame has gone in, after both of the discards.
abbrev with_frame : Bytes → ℕ → WsWriteQueue → WsWriteQueue
with_frame text g q = record q {
  entries = make_entry q text true g ∷ retained q;
  next_address = suc q.next_address;
}

push_accepted :
    (text : Bytes) (g : ℕ) (q : WsWriteQueue)
    → IsValid q
    → 1 ≤ q.connection_reserve
    → All (IsForeign g) q.entries
    → push_connection text g true (discard_stale_connection_writes g q)
      ≡ (with_frame text g q, true)
unfolding push_connection discard_stale_connection_writes add_connection
push_accepted text g q v reserve foreign =
    ap (λ es. add_connection text g true (record q { entries = es }))
      (ap (erase_if (is_stale_write g)) (erase_foreign g q.entries foreign)
        ∙ erase_retained g q.entries)
    ∙ room (leb q.capacity (length (retained q)))
        (not_full q.capacity (length (retained q)) q.connection_reserve v.retained_bounded reserve)
  where
    added : Bool → WsWriteQueue × Bool
    added b = if b then (record q { entries = retained q }, false) else (with_frame text g q, true)

    room : (b : Bool) → b ≡ false → added b ≡ added false
    room b e = ap added e

    not_full : (a b c : ℕ) → b + c ≤ a → 1 ≤ c → leb a b ≡ false
    not_full a b c h k = ground arith

-- What is left of a `WsClient` whose handshake completes, once what holds then is written into it.
abbrev ready : ℕ → WsClient → WsClient
ready g s = record s { generation = g; stopped = false; writing = false; has_handlers = true }

ready_lem :
    (g : ℕ) (s : WsClient)
    → s.generation ≡ g
    → s.stopped ≡ false
    → s.writing ≡ false
    → s.has_handlers ≡ true
    → s ≡ ready g s
ready_lem g s h k l m =
    λ i. record s { generation = h i; stopped = k i; writing = l i; has_handlers = m i }

-- The client once the frame is on its way.
abbrev written : Bytes → ℕ → WsClient → WsClient
written text g s = record s {
  connected = true;
  writing = true;
  write_queue = with_frame text g s.write_queue;
  effects =
      begin_read g
      ∷ wait_keepalive_timer 10000
      ∷ begin_write g (make_entry s.write_queue text true g).payload
      ∷ call_on_open
      ∷ call_on_log "connected"
      ∷ cancel_stage_timer
      ∷ s.effects;
}

same : (g : ℕ) → (g == g) ≡ true
same g = ground arith

-- The first write of a connection that is up.
do_write_front :
    (g : ℕ) (e : Entry) (es : List Entry) (s : WsClient) (n : ℕ)
    → let up = record s {
      connected = true;
      generation = g;
      write_queue = record s.write_queue { entries = e ∷ es; next_address = n };
    } in
      do_write g up ≡ record up { writing = true; effects = begin_write g e.payload ∷ s.effects }
unfolding do_write front_payload
do_write_front g e es s n = rw (same g) refl

opened-ready :
    (text : Frame → Bytes) (u : UserWs) (env : Environment) (g : ℕ) (s : WsClient)
    → IsValid s.write_queue
    → 1 ≤ s.write_queue.connection_reserve
    → All (IsForeign g) s.write_queue.entries
    → app_calls (on_open u).1 env ≡ []
    → opened (environment text u env) g (ready g s)
      ≡ written (text (user_initial u.creds u.subscriptions.desired)) g (ready g s)
unfolding opened run_on_open run_all_dispatched run_dispatched send_first do_write environment
    on_open send_initial
opened-ready text u env g s v reserve foreign silent =
    rw
      (
        silent,
        push_accepted (text (user_initial u.creds u.subscriptions.desired)) g s.write_queue v
            reserve foreign,
        do_write_front g
            (make_entry s.write_queue (text (user_initial u.creds u.subscriptions.desired)) true g)
            (retained s.write_queue)
            (record (ready g s) {
              effects = call_on_open ∷ call_on_log "connected" ∷ cancel_stage_timer ∷ s.effects;
            })
            (suc s.write_queue.next_address),
        same g,
      )
      refl

idle_by : (s : WsClient) → IsValidClient s → s.connected ≡ false → s.writing ≡ false
idle_by s v down = elim (Bool-cases s.writing) [
  | inr e ↦ e
  | inl e ↦ let k = v.writes e in absurd (ground arith)
]

retained_filter :
    (es : List Entry) → filter is_retained (filter is_retained es) ≡ filter is_retained es
retained_filter [] = refl
retained_filter (e ∷ es) =
    let ih = retained_filter es in
    elim (Bool-cases (is_retained e)) [
      | inl k ↦ rw k (rw k (ap (λ xs. e ∷ xs) ih))
      | inr k ↦ rw k ih
    ]

-- When the handshake of a running `UserWs` completes, whatever older application messages wait, the first
-- write on the new connection is the frame with the credentials and all desired subscriptions; no other
-- write is begun, the first read and a keepalive in ten seconds are, and the older messages keep waiting
-- behind the frame, in order. Conditions: the client is valid, running and not connected yet, no frame of
-- this connection waits, the queue keeps a reserve for such frames, and what the application's handler of
-- the opening calls back, where there is one, is nothing.
pub handle-AuthenticatesFirst :
    (text : Frame → Bytes) (u : UserWs) (env : Environment) (g : ℕ) (s : WsClient)
    → IsValidClient s
    → s.generation ≡ g
    → s.stopped ≡ false
    → s.connected ≡ false
    → s.has_handlers ≡ true
    → 1 ≤ s.write_queue.connection_reserve
    → All (IsForeign g) s.write_queue.entries
    → app_calls (on_open u).1 env ≡ []
    → let up = handle (environment text u env) (stage_event ws_handshake g none) s in
      (p : Payload) × (p.text ≡ text (user_initial u.creds u.subscriptions.desired))
      × (up.effects
          ≡ begin_read g
            ∷ wait_keepalive_timer 10000
            ∷ begin_write g p
            ∷ call_on_open
            ∷ call_on_log "connected"
            ∷ cancel_stage_timer
            ∷ s.effects)
      × (front_payload up.write_queue ≡ some p)
      × (up.writing ≡ true)
      × (retained up.write_queue ≡ retained s.write_queue)
unfolding handle stage_done stage_succeeded front_payload
handle-AuthenticatesFirst text u env g s v same_g running down handlers reserve foreign silent =
    let idle = idle_by s v down in
    let up : handle (environment text u env) (stage_event ws_handshake g none) s
        ≡ written (text (user_initial u.creds u.subscriptions.desired)) g (ready g s) =
      ap (handle (environment text u env) (stage_event ws_handshake g none))
        (ready_lem g s same_g running idle handlers)
      ∙ completes in
    (
      (make_entry s.write_queue (text (user_initial u.creds u.subscriptions.desired)) true
          g).payload,
      refl,
      ap (λ t. t.effects) up,
      ap (λ t. front_payload t.write_queue) up,
      ap (λ t. t.writing) up,
      ap (λ t. retained t.write_queue) up ∙ retained_filter s.write_queue.entries,
    )
  where
    completes :
        handle (environment text u env) (stage_event ws_handshake g none) (ready g s)
        ≡ written (text (user_initial u.creds u.subscriptions.desired)) g (ready g s)
    completes = rw (same g) (opened-ready text u env g s v.queue reserve foreign silent)
