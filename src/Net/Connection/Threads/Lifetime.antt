-- ===== src/Net/Connection/Threads/Lifetime.antt =====
-- Whether a functor that src/net/tcp_connection.cpp queues can run after the connection has been destroyed.
use rpc_framework.Base.{
  ◌⊎◌, inl, inr, Bool-cases, ◌+◌, ◌≤◌, ◌<◌, ◌≡◌, refl, ap, ◌∙◌, inl, inr, false, ◌||◌, List, [],
  ◌∷◌, ◌++◌, ◌==◌, ==_iff, arith, Bool-cases, if_cases, if_split,
}
use rpc_framework.Net.EventLoop
use rpc_framework.Net.EventLoop.{EventLoop, queue_in_loop, run_in_loop, swap_functors, end_functors}
use rpc_framework.Net.Connection.{WriteResult}
use rpc_framework.Net.Connection.Threads.{
  Task, send_task, reply_task, shutdown_task, close_task, Shared, owning, references, send,
  send_buffer, shutdown, force_close, Event, sends, sends_buffer, replies, reply, shuts_down,
  forces_close, takes, drops, handles, swaps, ends, calls_next, next_task, ended, act, step, run,
  established,
}
use rpc_framework.Net.Connection.Threads.Held.{
  bare, bare_queued, Held, Lower, Lower-Held, owning-append, by_caller-Held, run_task-Held,
  send-Held, reply-Held, send_buffer-Held, shutdown-Held, force_close-Held, handle_event-Held,
}

-- A functor that is queued refers to an object that lives.
queued_alive :
    (t : Task) (ts : List Task) {s : Shared} → s.batch ≡ t ∷ ts → Held s → s.destroyed ≡ false
queued_alive t ts {s} e h = elim (Bool-cases s.destroyed) [
  | inr alive ↦ alive
  | inl dead ↦ absurd (go t (ap bare e) (ap owning e) (h.gone dead))
]
  where
    go :
        (t : Task)
        → bare s.batch ≡ bare (t ∷ ts)
        → owning s.batch ≡ owning (t ∷ ts)
        → references s ≡ 0
        → ⊥
    go (send_task xs) b o z = let p = h.kept (omega arith) in omega arith
    go shutdown_task b o z = let p = h.kept (omega arith) in omega arith
    go close_task b o z = omega arith
    go (reply_task xs) b o z = omega arith

next_task-Held :
    (r : WriteResult) (ts : List Task) {s : Shared}
    → s.batch ≡ ts
    → Held s
    → Held (next_task ts r s)
next_task-Held r [] e h = h
next_task-Held r (t ∷ ts) {s} e h = run_task-Held t r (Lower-Held lower h) (queued_alive t ts e h)
  where
    shift : (t : Task) → owning (t ∷ ts) ≡ owning ts + owning (t ∷ [])
    shift (send_task xs) = omega arith
    shift shutdown_task = omega arith
    shift close_task = omega arith
    shift (reply_task xs) = omega arith

    drop_one : (t : Task) → bare ts ≤ bare (t ∷ ts)
    drop_one (send_task xs) = omega arith
    drop_one shutdown_task = omega arith
    drop_one close_task = omega arith
    drop_one (reply_task xs) = omega arith

    lower : Lower s (record s { batch = ts; spent = s.spent ++ (t ∷ []) })
    lower = record {
      same_destroyed = refl;
      fewer =
          let moved = owning-append s.spent (t ∷ []) in
          let whole = ap owning e ∙ shift t in omega arith;
      shorter = let whole = ap bare e in let one = drop_one t in omega arith;
      same_holders = refl;
      same_touched = refl;
    }

ended-Held : (ts : List Task) {s : Shared} → Held s → Held (ended ts s)
unfolding end_functors
ended-Held (t ∷ ts) h = h
ended-Held [] {s} h = record {
  gone = λ dead. let z = h.gone dead in omega arith;
  kept = λ b. h.kept (omega arith);
  untouched = h.untouched;
}

swapped-Held :
    {s : Shared}
    → Held s
    → Held
        (record s { loop = (swap_functors s.loop).1; batch = (swap_functors s.loop).0; spent = [] })
unfolding swap_functors
swapped-Held {s} h = record {
  gone = λ dead. let z = h.gone dead in omega arith;
  kept = λ b. h.kept (omega arith);
  untouched = h.untouched;
}

-- Whenever the application lets a pointer go while a functor of `send` or `shutdown` is queued, it
-- holds another one.
abbrev pub Careful : Event → Shared → Type 0
Careful drops s = 0 < bare_queued s → 1 < s.holders
Careful e s = Unit {0}

abbrev pub Keeps : List Event → Shared → Type 0
Keeps [] s = Unit {0}
Keeps (e ∷ es) s = Careful e s × Keeps es (step e s)

act-Held : (e : Event) {s : Shared} → Careful e s → Held s → Held (act e s)
act-Held (sends b xs r) c h = by_caller-Held b (send b xs r) h (send-Held b xs r h)
act-Held (replies b xs r) c h = by_caller-Held b (reply b xs r) h (reply-Held b xs r h)
act-Held (sends_buffer b buf r) c h =
    by_caller-Held b (λ t. (send_buffer b buf r t).1) h (send_buffer-Held b buf r h)
act-Held (shuts_down b) c h = by_caller-Held b (shutdown b) h (shutdown-Held b h)
act-Held (forces_close b) c h =
    by_caller-Held b (force_close b) h (λ alive k. force_close-Held b h alive)
act-Held takes {s} c h =
    if_split Held s.destroyed (λ dead. h)
      (λ alive. record {
        gone = λ dead. absurd cc;
        kept = λ b. omega arith;
        untouched = h.untouched;
      })
act-Held drops {s} c h = record {
  gone = λ dead. let z = h.gone dead in omega arith;
  kept = λ b. let p = c b in omega arith;
  untouched = h.untouched;
}
act-Held (handles readv write r) {s} c h =
    if_cases Held (s.connection.removed || s.loop.calling_pending_functors) h
      (handle_event-Held readv write r h)
act-Held swaps {s} c h = if_cases Held s.loop.calling_pending_functors h (swapped-Held h)
act-Held (calls_next r) {s} c h = next_task-Held r s.batch refl h
act-Held ends {s} c h = ended-Held s.batch h

step-Held : (e : Event) {s : Shared} → Careful e s → Held s → Held (step e s)
unfolding step
step-Held e {s} c h =
    let t = act-Held e c h in
    if_split Held (references (act e s) == 0)
      (λ z. record {
        gone = λ dead. (==_iff (references (act e s)) 0).0 z;
        kept = t.kept;
        untouched = t.untouched;
      })
      (λ p. t)

run-Held : (es : List Event) {s : Shared} → Keeps es s → Held s → Held (run es s)
run-Held [] k h = h
run-Held (e ∷ es) (c, k) h = run-Held es k (step-Held e c h)

-- As long as the application, whenever it lets a pointer go while a functor of `send` or `shutdown` is
-- queued, still holds another one, no functor runs on a connection that has been destroyed, whatever
-- the threads and the socket do; and a connection that has been destroyed is held neither by the
-- server's map nor by the application nor by a functor.
pub run_untouched :
    (es : List Event)
    → Keeps es established
    → ((run es established).touched ≡ false)
      × (((run es established).destroyed ≡ false) ⊎ (references (run es established) ≡ 0))
unfolding established EventLoop.init
run_untouched es k = (
  h.untouched,
  elim (Bool-cases (run es established).destroyed) [
    | inl dead ↦ inr (h.gone dead)
    | inr alive ↦ inl alive
  ],
)
  where
    h : Held (run es established)
    h =
        run-Held es k
          (record { gone = λ dead. absurd cc; kept = λ b. absurd (omega arith); untouched = refl })
