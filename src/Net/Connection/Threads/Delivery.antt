-- ===== src/Net/Connection/Threads/Delivery.antt =====
-- A round of src/net/event_loop.cpp passes on all that other threads have sent on a connection
-- (src/net/tcp_connection.cpp) before it.
use rpc_framework.Base.{
  ◌≤◌, ◌≡◌, refl, sym, ap, ◌∙◌, subst, false, List, [], ◌∷◌, ◌++◌, map, length, max_size, arith,
  if_cases, if_split, ◌==◌, Byte, append_assoc, append-nil,
}
use rpc_framework.Net.EventLoop.{swap_functors, end_functors}
use rpc_framework.Net.Connection.{WriteResult}
use rpc_framework.Net.Connection.Sending.{passed_on}
use rpc_framework.Net.Connection.Threads.{
  Task, references, Shared, release, run_task, next_task, ended, step,
}
use rpc_framework.Net.Connection.Threads.Flow.{
  Flow, swaps, calls_next, ends, flow_step, flow_run, news, submitted, carried, Takes, IsFlowing,
  in_flight, load,
}
use rpc_framework.Net.Connection.Threads.Arrival.{flow_order}

-- A round of the loop over its queue, with what the kernel takes in each functor.
abbrev pub round : List WriteResult → List Flow
round rs = swaps ∷ (map calls_next rs ++ (ends ∷ []))

flow_run-append :
    (xs ys : List Flow) (s : Shared) → flow_run (xs ++ ys) s ≡ flow_run ys (flow_run xs s)
flow_run-append [] ys s = refl
flow_run-append (x ∷ xs) ys s = flow_run-append xs ys (flow_step x s)

submitted-append :
    (xs ys : List Flow) (s : Shared)
    → submitted (xs ++ ys) s ≡ submitted xs s ++ submitted ys (flow_run xs s)
submitted-append [] ys s = refl
submitted-append (x ∷ xs) ys s =
    ap (◌++◌ (news x s)) (submitted-append xs ys (flow_step x s))
    ∙ sym (append_assoc (news x s) _ _)

submitted-calls : (rs : List WriteResult) (s : Shared) → submitted (map calls_next rs) s ≡ []
submitted-calls [] s = refl
submitted-calls (r ∷ rs) s = submitted-calls rs (flow_step (calls_next r) s)

submitted-round : (rs : List WriteResult) (s : Shared) → submitted (round rs) s ≡ []
submitted-round rs s =
    let t : Shared = flow_step swaps s in
    submitted-append (map calls_next rs) (ends ∷ []) t
    ∙ ap (λ (x : List Byte). x ++ []) (submitted-calls rs t)

-- What is queued in `s`: in the round, and for the next one.
record Queues (batch pending : List Task) (s : Shared) : Type 0 where
  pub in_batch : s.batch ≡ batch
  pub in_pending : s.loop.pending_functors ≡ pending

release-Queues : (b p : List Task) (s : Shared) → Queues b p s → Queues b p (release s)
release-Queues b p s q =
    if_cases (Queues b p) (references s == 0)
      (record { in_batch = q.in_batch; in_pending = q.in_pending }) q

run_task-Queues :
    (t : Task) (r : WriteResult) (b p : List Task) (s : Shared)
    → Queues b p s
    → Queues b p (run_task t r s)
unfolding run_task
run_task-Queues t r b p s q =
    if_cases (Queues b p) s.destroyed (record { in_batch = q.in_batch; in_pending = q.in_pending })
      (record { in_batch = q.in_batch; in_pending = q.in_pending })

calls_next-Queues :
    (r : WriteResult) (t : Task) (b p : List Task) (s : Shared)
    → Queues (t ∷ b) p s
    → Queues b p (flow_step (calls_next r) s)
unfolding step
calls_next-Queues r t b p s q = release-Queues b p _ (
    subst (λ ts. Queues b p (next_task ts r s)) (sym q.in_batch)
      (run_task-Queues t r b p _ (record { in_batch = refl; in_pending = q.in_pending })))

calls-Queues :
    (rs : List WriteResult) (b p : List Task) (s : Shared)
    → length rs ≡ length b
    → Queues b p s
    → Queues [] p (flow_run (map calls_next rs) s)
calls-Queues [] [] p s e q = q
calls-Queues [] (t ∷ b) p s e q = absurd (omega arith)
calls-Queues (r ∷ rs) [] p s e q = absurd (omega arith)
calls-Queues (r ∷ rs) (t ∷ b) p s e q =
    calls-Queues rs b p (flow_step (calls_next r) s) (omega arith) (calls_next-Queues r t b p s q)

ends-Queues : (p : List Task) (s : Shared) → Queues [] p s → Queues [] p (flow_step ends s)
unfolding step end_functors
ends-Queues p s q = release-Queues [] p _ (
    subst (λ ts. Queues [] p (ended ts s)) (sym q.in_batch)
      (record { in_batch = q.in_batch; in_pending = q.in_pending }))

swaps-Queues :
    (s : Shared)
    → s.loop.calling_pending_functors ≡ false
    → Queues s.loop.pending_functors [] (flow_step swaps s)
unfolding step swap_functors
swaps-Queues s idle = release-Queues s.loop.pending_functors [] _ (
    if_split (Queues s.loop.pending_functors []) s.loop.calling_pending_functors (λ c. absurd cc)
      (λ c. record { in_batch = refl; in_pending = refl }))

round-Queues :
    (rs : List WriteResult) (s : Shared)
    → s.loop.calling_pending_functors ≡ false
    → length rs ≡ length s.loop.pending_functors
    → Queues [] [] (flow_run (round rs) s)
round-Queues rs s idle e =
    let t : Shared = flow_step swaps s in
    subst (Queues [] []) (sym (flow_run-append (map calls_next rs) (ends ∷ []) t))
      (ends-Queues [] _ (calls-Queues rs s.loop.pending_functors [] t e (swaps-Queues s idle)))

-- On an open connection in the server's map a round of the loop that calls every queued functor leaves
-- nothing queued, and then all that other threads had sent before it is on the wire or in the output
-- buffer, in the order of their calls, whatever the socket takes. The socket does not fail, and the
-- output buffer stays below the largest array.
pub round_delivers :
    (rs : List WriteResult) (s : Shared)
    → IsFlowing s
    → s.loop.calling_pending_functors ≡ false
    → length rs ≡ length s.loop.pending_functors
    → Takes (round rs) s
    → load s ≤ max_size
    → let t = flow_run (round rs) s in
      (passed_on t.connection ≡ in_flight s) × (t.loop.pending_functors ≡ []) × (t.batch ≡ [])
round_delivers rs s h idle e took small =
    let none_new = submitted-round rs s in
    let t : Shared = flow_run (round rs) s in
    let (g, o) = flow_order (round rs) h took (let z = ap length none_new in omega arith) in
    let q = round-Queues rs s idle e in
    (
      sym (append-nil (passed_on t.connection))
          ∙ ap (λ (x : List Task). passed_on t.connection ++ carried x) (sym q.in_pending)
          ∙ ap
              (λ (x : List Task).
                passed_on t.connection ++ (carried x ++ carried t.loop.pending_functors))
              (sym q.in_batch)
          ∙ o
          ∙ ap (◌++◌ (in_flight s)) none_new
          ∙ append-nil (in_flight s),
      q.in_pending,
      q.in_batch,
    )
