-- ===== src/Net/Connection/Threads/Owning.antt =====
-- Runs in which the functors for a connection of src/net/tcp_connection.cpp capture a pointer, as those of
-- src/rpc/rpc_server.cpp and of `force_close` do.
use rpc_framework.Base.{
  ◌+◌, ◌≡◌, refl, ap, ◌∙◌, ◌⊎◌, Bool, true, false, ◌||◌, List, [], ◌∷◌, Byte, ◌==◌, arith, if_cases,
}
use rpc_framework.Net.Buffer.{Buffer}
use rpc_framework.Net.EventLoop
use rpc_framework.Net.EventLoop.{queue_in_loop, run_in_loop, swap_functors, end_functors}
use rpc_framework.Net.Connection.{WriteResult, is_connected, is_disconnecting}
use rpc_framework.Net.Connection.Threads.{
  Task, send_task, reply_task, shutdown_task, close_task, Shared, references, release, run_task,
  send, send_buffer, reply, shutdown, force_close, handle_event, Event, sends, replies,
  sends_buffer, shuts_down, forces_close, takes, drops, handles, swaps, ends, calls_next, may_call,
  by_caller, next_task, ended, act, step, run, established,
}
use rpc_framework.Net.Connection.Threads.Held.{
  bare, bare_queued, bare-append, queue_in_loop-pending,
}
use rpc_framework.Net.Connection.Threads.Lifetime.{Careful, Keeps, run_untouched}

-- `send` and `shutdown` are called in the thread of the loop only.
abbrev pub all_owning : List Event → Bool
all_owning [] = true
all_owning (sends false xs r ∷ es) = false
all_owning (sends_buffer false buf r ∷ es) = false
all_owning (shuts_down false ∷ es) = false
all_owning (_ ∷ es) = all_owning es

-- No functor with a bare `this` is queued.
abbrev NoBare : Shared → Type 0
NoBare s = bare_queued s ≡ 0

release-NoBare : (s : Shared) → NoBare s → NoBare (release s)
release-NoBare s n = if_cases NoBare (references s == 0) n n

by_caller-NoBare :
    (b : Bool) (f : Shared → Shared) (s : Shared)
    → NoBare s
    → NoBare (f s)
    → NoBare (by_caller b f s)
by_caller-NoBare b f s n m = if_cases NoBare (may_call b s) m n

run_task-NoBare : (t : Task) (r : WriteResult) (s : Shared) → NoBare s → NoBare (run_task t r s)
unfolding run_task
run_task-NoBare t r s n = if_cases NoBare s.destroyed n n

queued-NoBare :
    (b : Bool) (t : Task) (s : Shared)
    → bare (t ∷ []) ≡ 0
    → NoBare s
    → bare ((queue_in_loop b t s.loop).pending_functors) + bare s.batch ≡ 0
queued-NoBare b t s own n =
    let e =
      ap bare (queue_in_loop-pending b t s.loop) ∙ bare-append s.loop.pending_functors (t ∷ []) in
    omega arith

reply-NoBare :
    (b : Bool) (xs : List Byte) (r : WriteResult) (s : Shared) → NoBare s → NoBare (reply b xs r s)
unfolding reply run_in_loop
reply-NoBare true xs r s n = run_task-NoBare (reply_task xs) r s n
reply-NoBare false xs r s n = queued-NoBare false (reply_task xs) s refl n

next_task-NoBare :
    (r : WriteResult) (ts : List Task) (s : Shared)
    → s.batch ≡ ts
    → NoBare s
    → NoBare (next_task ts r s)
next_task-NoBare r [] s e n = n
next_task-NoBare r (t ∷ ts) s e n = run_task-NoBare t r _ (left t (ap bare e))
  where
    left : (t : Task) → bare s.batch ≡ bare (t ∷ ts) → bare s.loop.pending_functors + bare ts ≡ 0
    left (send_task xs) e = omega arith
    left (reply_task xs) e = omega arith
    left shutdown_task e = omega arith
    left close_task e = omega arith

ended-NoBare : (ts : List Task) (s : Shared) → NoBare s → NoBare (ended ts s)
unfolding end_functors
ended-NoBare [] s n = n
ended-NoBare (t ∷ ts) s n = n

act-NoBare :
    (e : Event) (es : List Event) (s : Shared)
    → all_owning (e ∷ es) ≡ true
    → NoBare s
    → NoBare (act e s) × (all_owning es ≡ true) × Careful e s
unfolding send send_buffer shutdown force_close handle_event swap_functors run_in_loop
act-NoBare (sends true xs r) es s o n = (
  by_caller-NoBare true (send true xs r) s n
      (if_cases NoBare (is_connected s.connection.state) n n),
  o,
  tt,
)
act-NoBare (sends false xs r) es s o n = absurd cc
act-NoBare (replies b xs r) es s o n =
    (by_caller-NoBare b (reply b xs r) s n (reply-NoBare b xs r s n), o, tt)
act-NoBare (sends_buffer true buf r) es s o n = (
  by_caller-NoBare true (λ t. (send_buffer true buf r t).1) s n
      (if_cases (λ (x : Buffer × Shared). NoBare x.1) (is_connected s.connection.state)
        (run_task-NoBare _ r _ n) n),
  o,
  tt,
)
act-NoBare (sends_buffer false buf r) es s o n = absurd cc
act-NoBare (shuts_down true) es s o n = (
  by_caller-NoBare true (shutdown true) s n
      (if_cases NoBare (is_connected s.connection.state) (run_task-NoBare shutdown_task _ _ n) n),
  o,
  tt,
)
act-NoBare (shuts_down false) es s o n = absurd cc
act-NoBare (forces_close b) es s o n = (
  by_caller-NoBare b (force_close b) s n (
      if_cases NoBare (is_connected s.connection.state || is_disconnecting s.connection.state)
        (queued-NoBare b close_task s refl n) n),
  o,
  tt,
)
act-NoBare takes es s o n = (if_cases NoBare s.destroyed n n, o, tt)
act-NoBare drops es s o n = (n, o, λ some_queued. absurd (omega arith))
act-NoBare (handles readv write r) es s o n = (
  if_cases NoBare (s.connection.removed || s.loop.calling_pending_functors) n
      (if_cases NoBare s.tied (if_cases NoBare s.destroyed n n) n),
  o,
  tt,
)
act-NoBare swaps es s o n = (if_cases NoBare s.loop.calling_pending_functors n (omega arith), o, tt)
act-NoBare ends es s o n = (ended-NoBare s.batch s n, o, tt)
act-NoBare (calls_next r) es s o n = (next_task-NoBare r s.batch s refl n, o, tt)

Keeps-all_owning : (es : List Event) (s : Shared) → all_owning es ≡ true → NoBare s → Keeps es s
unfolding step
Keeps-all_owning [] s o n = tt
Keeps-all_owning (e ∷ es) s o n =
    let (m, p, c) = act-NoBare e es s o n in
    (c, Keeps-all_owning es (step e s) p (release-NoBare (act e s) m))

none_queued : NoBare established
unfolding established EventLoop.init
none_queued = refl

-- When other threads use a connection only as the server's workers do, by functors that capture a
-- pointer, and by `force_close`, then whatever they, the socket and the loop do, and whenever the
-- application lets its pointers go, no functor runs on a connection that has been destroyed.
pub run_owning :
    (es : List Event)
    → all_owning es ≡ true
    → ((run es established).touched ≡ false)
      × (((run es established).destroyed ≡ false) ⊎ (references (run es established) ≡ 0))
run_owning es o = run_untouched es (Keeps-all_owning es established o none_queued)
