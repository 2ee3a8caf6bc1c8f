-- ===== src/Net/Connection/Threads/Arrival.antt =====
-- The bytes that other threads send on a connection (src/net/tcp_connection.cpp), on their way through
-- the queue of the loop (src/net/event_loop.cpp) to the socket.
use rpc_framework.Base.{
  ◌+◌, ◌≤◌, ◌≡◌, refl, sym, ap, ◌∙◌, subst, inl, inr, false, ◌||◌, List, [], ◌∷◌, ◌++◌, length,
  Byte, ltb, max_size, ◌==◌, if◌then◌else◌, ==_iff, arith, Bool-cases, if_cases, if_split,
  append_assoc, append-nil, length-append,
}
use rpc_framework.Net.Buffer.{readable, retrieve_all_as_string}
use rpc_framework.Net.Channel.{handle_event_with_guard}
use rpc_framework.Net.Channel.Dispatch
use rpc_framework.Net.Buffer.ReadFd.{failed}
use rpc_framework.Net.EventLoop.{queue_in_loop, run_in_loop, swap_functors, end_functors}
use rpc_framework.Net.Connection.{is_connected, WriteResult, handle_write}
use rpc_framework.Net.Connection.Sending.{passed_on, Took}
use rpc_framework.Net.Connection.Threads.{
  Task, send_task, reply_task, shutdown_task, close_task, Shared, references, update, send,
  send_buffer, handle_event, by_caller, next_task, ended, act, step,
}
use rpc_framework.Net.Connection.Threads.Flow.{
  Flow, submits, submits_buffer, takes, drops, swaps, ends, writable, calls_next, writable_only,
  event, flow_step, flow_run, news, submitted, carried, OnlySends, TookNext, TookEvent, Takes,
  IsFlowing, in_flight, load,
}
use rpc_framework.Net.Connection.Threads.Passing.{
  Flows, still, queued-Flows, handle_write-quiet, update-IsFlowing, run_task-Flows,
}

by_caller-Flows :
    (f : Shared → Shared) (xs : List Byte) {s : Shared}
    → IsFlowing s
    → (f s ≡ record s { loop = queue_in_loop false (send_task xs) s.loop })
    → Flows (if ltb 0 s.holders then xs else []) s (by_caller false f s)
by_caller-Flows f xs {s} h e = elim (Bool-cases (ltb 0 s.holders)) [
  | inl may ↦ rw (may, e) (queued-Flows xs h)
  | inr none_held ↦ rw none_held (still h)
]

next_task-Flows :
    (r : WriteResult) (ts : List Task) {s : Shared}
    → s.batch ≡ ts
    → IsFlowing s
    → TookNext r ts
    → load s ≤ max_size
    → Flows [] s (next_task ts r s)
next_task-Flows r [] e h k small = still h
next_task-Flows r (send_task d ∷ ts) e h k small = run_task-Flows d r ts e h k small
next_task-Flows r (shutdown_task ∷ ts) e h k small = absurd (subst OnlySends e h.batch_sends)
next_task-Flows r (close_task ∷ ts) e h k small = absurd (subst OnlySends e h.batch_sends)
next_task-Flows r (reply_task x ∷ ts) e h k small = absurd (subst OnlySends e h.batch_sends)

ended-Flows : (ts : List Task) {s : Shared} → s.batch ≡ ts → IsFlowing s → Flows [] s (ended ts s)
unfolding end_functors
ended-Flows (t ∷ ts) e h = still h
ended-Flows [] {s} e h = record {
  flowing = record {
    is_open = h.is_open;
    alive = h.alive;
    listed = h.listed;
    pending_sends = h.pending_sends;
    batch_sends = h.batch_sends;
    between = λ c. e;
  };
  order = sym (append-nil (in_flight s));
  low = omega arith;
}

swapped-Flows :
    {s : Shared}
    → IsFlowing s
    → s.loop.calling_pending_functors ≡ false
    → Flows [] s
        (record s { loop = (swap_functors s.loop).1; batch = (swap_functors s.loop).0; spent = [] })
unfolding swap_functors
swapped-Flows {s} h c = record {
  flowing = record {
    is_open = h.is_open;
    alive = h.alive;
    listed = h.listed;
    pending_sends = tt;
    batch_sends = h.pending_sends;
    between = λ d. absurd cc;
  };
  order = ap (◌++◌ (passed_on s.connection)) same ∙ sym (append-nil (in_flight s));
  low = let e = ap length same in omega arith;
}
  where
    same :
        carried s.loop.pending_functors ++ [] ≡ carried s.batch ++ carried s.loop.pending_functors
    same = append-nil _ ∙ ap (λ b. carried b ++ carried s.loop.pending_functors) (sym (h.between c))

handle_event-Flows :
    (r : WriteResult) {s : Shared}
    → IsFlowing s
    → Took r (readable s.connection.output_buf)
    → Flows [] s (handle_event (λ n. failed 0) r writable_only s)
unfolding handle_event Dispatch.handle_event handle_event_with_guard Dispatch.callbacks
handle_event-Flows r {s} h k =
    if_cases (Flows [] s) s.tied (if_cases (Flows [] s) s.destroyed (still h) go) go
  where
    q : List Byte
    q = carried s.batch ++ carried s.loop.pending_functors

    go : Flows [] s (update (handle_write r) s)
    go =
        let (t, quiet) = handle_write-quiet r h.is_open k in
        record {
          flowing = update-IsFlowing (handle_write r) [] h t quiet;
          order =
              ap (λ y. y ++ q) (t.order ∙ append-nil (passed_on s.connection))
              ∙ sym (append-nil (in_flight s));
          low = omega (arith, t.low);
        }

act-Flows :
    (e : Flow) {s : Shared}
    → IsFlowing s
    → TookEvent e s
    → load s ≤ max_size
    → Flows (news e s) s (act (event e) s)
unfolding send send_buffer run_in_loop
act-Flows (submits xs) {s} h k small =
    by_caller-Flows (send false xs WriteResult.would_block) xs h
      (rw (ap is_connected h.is_open.open_state) refl)
act-Flows (submits_buffer buf) {s} h k small =
    by_caller-Flows (λ t. (send_buffer false buf WriteResult.would_block t).1)
      (retrieve_all_as_string buf).0 h (rw (ap is_connected h.is_open.open_state) refl)
act-Flows takes {s} h k small = if_cases (Flows [] s) s.destroyed (still h) (record {
  flowing = record {
    is_open = h.is_open;
    alive = h.alive;
    listed = h.listed;
    pending_sends = h.pending_sends;
    batch_sends = h.batch_sends;
    between = h.between;
  };
  order = sym (append-nil (in_flight s));
  low = omega arith;
})
act-Flows drops {s} h k small = record {
  flowing = record {
    is_open = h.is_open;
    alive = h.alive;
    listed = h.listed;
    pending_sends = h.pending_sends;
    batch_sends = h.batch_sends;
    between = h.between;
  };
  order = sym (append-nil (in_flight s));
  low = omega arith;
}
act-Flows swaps {s} h k small =
    if_split (Flows [] s) s.loop.calling_pending_functors (λ c. still h) (λ c. swapped-Flows h c)
act-Flows ends {s} h k small = ended-Flows s.batch refl h
act-Flows (writable r) {s} h k small =
    if_cases (Flows [] s) (s.connection.removed || s.loop.calling_pending_functors) (still h)
      (handle_event-Flows r h k)
act-Flows (calls_next r) {s} h k small = next_task-Flows r s.batch refl h k small

-- The map holds a pointer.
flow_step-act :
    (e : Flow) (s : Shared) → IsFlowing (act (event e) s) → flow_step e s ≡ act (event e) s
unfolding step
flow_step-act e s h =
    if_split (λ t. t ≡ act (event e) s) (references (act (event e) s) == 0)
      (λ z.
        let none_left = (==_iff (references (act (event e) s)) 0).0 z in
        let m = h.listed in absurd (ground arith))
      (λ p. refl)

-- While an open connection stays in the server's map, the socket takes no more than it is given and does
-- not fail, and the output buffer stays below the largest array: the bytes on the wire, then those that
-- wait in the output buffer, then those of the functors of this round, then those of the functors that
-- wait, are all that the other threads have sent, in the order of their calls, each call's bytes
-- together.
pub flow_order :
    (es : List Flow) {s : Shared}
    → IsFlowing s
    → Takes es s
    → load s + length (submitted es s) ≤ max_size
    → IsFlowing (flow_run es s) × (in_flight (flow_run es s) ≡ in_flight s ++ submitted es s)
flow_order [] {s} h k small = (h, sym (append-nil (in_flight s)))
flow_order (e ∷ es) {s} h (k, ks) small =
    let size = length-append (news e s) (submitted es (flow_step e s)) in
    let t =
      subst (Flows (news e s) s) (sym (flow_step-act e s (act-Flows e h k (omega arith)).flowing))
        (act-Flows e h k (omega arith)) in
    let (g, o) = flow_order es t.flowing ks (omega (arith, t.low)) in
    (
      g,
      o
          ∙ ap (λ y. y ++ submitted es (flow_step e s)) t.order
          ∙ append_assoc (in_flight s) (news e s) (submitted es (flow_step e s)),
    )
