-- ===== src/Net/Connection/Threads/Passing.antt =====
-- How the bytes that other threads send pass from the queue of the loop to the connection
-- (src/net/tcp_connection.cpp).
use rpc_framework.Base.{
  ◌+◌, ◌≤◌, ◌≡◌, refl, sym, ap, ◌∙◌, subst, false, List, [], ◌∷◌, ◌++◌, length, Byte, max_size,
  arith, if_split, append_assoc, append-nil, length-append,
}
use rpc_framework.Net.Buffer.{readable}
use rpc_framework.Net.EventLoop.{queue_in_loop}
use rpc_framework.Net.Connection.{
  Connection, is_connected, is_disconnected, WriteResult, send_in_loop, handle_write,
}
use rpc_framework.Net.Connection
use rpc_framework.Net.Connection.Sending.{
  IsOpen, passed_on, Took, Sent, send-Sent, handle_write-Sent,
}
use rpc_framework.Net.Connection.Closing
use rpc_framework.Net.Connection.Closing.Fate.{closed_now, step-Fate, Fate-open}
use rpc_framework.Net.Connection.Threads.{
  Task, send_task, reply_task, shutdown_task, close_task, Shared, update, run_task,
}
use rpc_framework.Net.Connection.Threads.Flow.{carried, OnlySends, IsFlowing, in_flight, load}

pub record Flows (xs : List Byte) (s t : Shared) : Type 0 where
  pub flowing : IsFlowing t
  pub order : in_flight t ≡ in_flight s ++ xs
  pub low : load t ≤ load s + length xs

pub still : {s : Shared} → IsFlowing s → Flows [] s s
still {s} h = record { flowing = h; order = sym (append-nil (in_flight s)); low = omega arith }

carried-append : (xs ys : List Task) → carried (xs ++ ys) ≡ carried xs ++ carried ys
carried-append [] ys = refl
carried-append (send_task x ∷ xs) ys =
    ap (◌++◌ x) (carried-append xs ys) ∙ sym (append_assoc x (carried xs) (carried ys))
carried-append (shutdown_task ∷ xs) ys = carried-append xs ys
carried-append (close_task ∷ xs) ys = carried-append xs ys
carried-append (reply_task x ∷ xs) ys = carried-append xs ys

OnlySends-append :
    (xs : List Task) (d : List Byte) → OnlySends xs → OnlySends (xs ++ (send_task d ∷ []))
OnlySends-append [] d h = tt
OnlySends-append (send_task x ∷ xs) d h = OnlySends-append xs d h
OnlySends-append (shutdown_task ∷ xs) d h = absurd h
OnlySends-append (close_task ∷ xs) d h = absurd h
OnlySends-append (reply_task x ∷ xs) d h = absurd h

pub queued-Flows :
    (xs : List Byte) {s : Shared}
    → IsFlowing s
    → Flows xs s (record s { loop = queue_in_loop false (send_task xs) s.loop })
unfolding queue_in_loop
queued-Flows xs {s} h = record {
  flowing = record {
    is_open = h.is_open;
    alive = h.alive;
    listed = h.listed;
    pending_sends = OnlySends-append s.loop.pending_functors xs h.pending_sends;
    batch_sends = h.batch_sends;
    between = h.between;
  };
  order = ap (λ (q : List Byte). passed_on s.connection ++ (carried s.batch ++ q)) grown ∙ regroup;
  low =
      let e = ap length (ap (◌++◌ (carried s.batch)) grown) in
      let m = length-append (carried s.batch) (carried s.loop.pending_functors ++ xs) in
      let n = length-append (carried s.loop.pending_functors) xs in
      let k = length-append (carried s.batch) (carried s.loop.pending_functors) in omega arith;
}
  where
    grown :
        carried (s.loop.pending_functors ++ (send_task xs ∷ []))
        ≡ carried s.loop.pending_functors ++ xs
    grown =
        carried-append s.loop.pending_functors (send_task xs ∷ [])
        ∙ ap (◌++◌ (carried s.loop.pending_functors)) (append-nil xs)

    regroup :
        passed_on s.connection ++ (carried s.batch ++ (carried s.loop.pending_functors ++ xs))
        ≡ in_flight s ++ xs
    regroup = simp append_assoc

send_in_loop-Sent :
    (xs : List Byte) (r : WriteResult) {c : Connection}
    → IsOpen c
    → Took r (length xs)
    → c.output_buf.write_idx + length xs ≤ max_size
    → Sent xs c (send_in_loop xs r c) × (closed_now c (send_in_loop xs r c) ≡ false)
unfolding Connection.send Closing.step
send_in_loop-Sent xs r {c} o k small =
    let same : Connection.send xs r c ≡ send_in_loop xs r c =
      rw (ap is_connected o.open_state) refl in
    let t = subst (Sent xs c) same (send-Sent xs r o k small) in
    (
      t,
      Fate-open (subst (Closing.Fate.Fate c) same (step-Fate (Closing.sends xs r) c))
          (ap is_disconnected t.is_open.open_state),
    )

pub handle_write-quiet :
    (r : WriteResult) {c : Connection}
    → IsOpen c
    → Took r (readable c.output_buf)
    → Sent [] c (handle_write r c) × (closed_now c (handle_write r c) ≡ false)
unfolding Closing.step handle_write
handle_write-quiet r {c} o k =
    let t = handle_write-Sent r o k in
    (t, Fate-open (step-Fate (Closing.writable r) c) (ap is_disconnected t.is_open.open_state))

-- A member function on an open connection that stays open.
pub update-IsFlowing :
    (f : Connection → Connection) (xs : List Byte) {s : Shared}
    → IsFlowing s
    → Sent xs s.connection (f s.connection)
    → closed_now s.connection (f s.connection) ≡ false
    → IsFlowing (update f s)
update-IsFlowing f xs {s} h t quiet = record {
  is_open = t.is_open;
  alive = h.alive;
  listed = rw quiet h.listed;
  pending_sends = h.pending_sends;
  batch_sends = h.batch_sends;
  between = h.between;
}

pub run_task-Flows :
    (d : List Byte) (r : WriteResult) (ts : List Task) {s : Shared}
    → s.batch ≡ send_task d ∷ ts
    → IsFlowing s
    → Took r (length d)
    → load s ≤ max_size
    → Flows [] s
        (run_task (send_task d) r (record s { batch = ts; spent = s.spent ++ (send_task d ∷ []) }))
unfolding run_task
run_task-Flows d r ts {s} e h k small =
    let (t, quiet) = send_in_loop-Sent d r h.is_open k (omega (arith, size)) in
    if_split (Flows [] s) s.destroyed (λ dead. absurd cc)
      (λ alive. record {
        flowing = update-IsFlowing (send_in_loop d r) d taken t quiet;
        order =
            ap (λ y. y ++ q) t.order
            ∙ append_assoc (passed_on s.connection) d q
            ∙ ap (◌++◌ (passed_on s.connection)) (sym whole)
            ∙ sym (append-nil (in_flight s));
        low = omega (arith, t.low, size);
      })
  where
    q : List Byte
    q = carried ts ++ carried s.loop.pending_functors

    whole : carried s.batch ++ carried s.loop.pending_functors ≡ d ++ q
    whole = ap (λ b. carried b ++ carried s.loop.pending_functors) e ∙ append_assoc d (carried ts) _

    size : length (carried s.batch ++ carried s.loop.pending_functors) ≡ length d + length q
    size = ap length whole ∙ length-append d q

    taken : IsFlowing (record s { batch = ts; spent = s.spent ++ (send_task d ∷ []) })
    taken = record {
      is_open = h.is_open;
      alive = h.alive;
      listed = h.listed;
      pending_sends = h.pending_sends;
      batch_sends = subst OnlySends e h.batch_sends;
      between = λ c. let none_left = h.between c in absurd cc;
    }
