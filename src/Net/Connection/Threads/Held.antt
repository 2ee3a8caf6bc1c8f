-- ===== src/Net/Connection/Threads/Held.antt =====
-- What keeps a connection (src/net/tcp_connection.cpp), and what the calls and events do to it.
use rpc_framework.Base.{
  ℕ, ◌+◌, ◌≤◌, ◌<◌, ◌≡◌, refl, sym, ap, ◌∙◌, inl, inr, Bool, true, false, not, ◌||◌, List, [], ◌∷◌,
  ◌++◌, Byte, if◌then◌else◌, arith, Bool-cases, if_cases, if_split,
}
use rpc_framework.Net.Buffer.{Buffer, retrieve_all_as_string}
use rpc_framework.Net.Buffer.ReadFd.{ReadResult}
use rpc_framework.Net.Channel.{Revents}
use rpc_framework.Net.Channel.Dispatch
use rpc_framework.Net.EventLoop.{EventLoop, queue_in_loop, run_in_loop}
use rpc_framework.Net.Connection.{
  Connection, is_connected, is_disconnecting, WriteResult, send_in_loop,
}
use rpc_framework.Net.Connection.Closing.Fate.{closed_now}
use rpc_framework.Net.Connection.Threads.{
  Task, send_task, reply_task, shutdown_task, close_task, Shared, owning, references, update, work,
  run_task, pass_on, send, send_buffer, reply, shutdown, force_close, handle_event, may_call,
  by_caller,
}

-- The functors that capture a bare `this`.
abbrev pub bare : List Task → ℕ
bare [] = 0
bare (close_task ∷ ts) = bare ts
bare (reply_task xs ∷ ts) = bare ts
bare (_ ∷ ts) = bare ts + 1

abbrev pub bare_queued : Shared → ℕ
bare_queued s = bare s.loop.pending_functors + bare s.batch

-- An object is destroyed only when nothing refers to it, and the application holds a pointer as long
-- as a functor with a bare `this` is queued.
pub record Held (s : Shared) : Type 0 where
  pub gone : s.destroyed ≡ true → references s ≡ 0
  pub kept : 0 < bare_queued s → 0 < s.holders
  pub untouched : s.touched ≡ false

-- From `s` to `t` nothing is queued.
pub record Lower (s t : Shared) : Type 0 where
  pub same_destroyed : t.destroyed ≡ s.destroyed
  pub fewer : references t ≤ references s
  pub shorter : bare_queued t ≤ bare_queued s
  pub same_holders : t.holders ≡ s.holders
  pub same_touched : t.touched ≡ s.touched

pub Lower-Held : {s t : Shared} → Lower s t → Held s → Held t
Lower-Held {s} {t} l h = record {
  gone = λ d. let z = h.gone (sym l.same_destroyed ∙ d) in omega (arith, l.fewer);
  kept = λ b. let p = h.kept (omega (arith, l.shorter)) in omega (arith, l.same_holders);
  untouched = l.same_touched ∙ h.untouched;
}

pub owning-append : (xs ys : List Task) → owning (xs ++ ys) ≡ owning xs + owning ys
owning-append [] ys = omega arith
owning-append (send_task x ∷ xs) ys = owning-append xs ys
owning-append (shutdown_task ∷ xs) ys = owning-append xs ys
owning-append (close_task ∷ xs) ys = let h = owning-append xs ys in omega arith
owning-append (reply_task x ∷ xs) ys = let h = owning-append xs ys in omega arith

pub bare-append : (xs ys : List Task) → bare (xs ++ ys) ≡ bare xs + bare ys
bare-append [] ys = omega arith
bare-append (send_task x ∷ xs) ys = let h = bare-append xs ys in omega arith
bare-append (shutdown_task ∷ xs) ys = let h = bare-append xs ys in omega arith
bare-append (close_task ∷ xs) ys = bare-append xs ys
bare-append (reply_task x ∷ xs) ys = bare-append xs ys

pub update-Lower : (f : Connection → Connection) (s : Shared) → Lower s (update f s)
update-Lower f s = go (closed_now s.connection (f s.connection)) s.in_map
  where
    go :
        (b m : Bool)
        → Lower
            (record s { in_map = m })
            (record s { connection = f s.connection; in_map = if b then false else m })
    go true true = record {
      same_destroyed = refl;
      fewer = omega arith;
      shorter = omega arith;
      same_holders = refl;
      same_touched = refl;
    }
    go true false = record {
      same_destroyed = refl;
      fewer = omega arith;
      shorter = omega arith;
      same_holders = refl;
      same_touched = refl;
    }
    go false m = record {
      same_destroyed = refl;
      fewer = omega arith;
      shorter = omega arith;
      same_holders = refl;
      same_touched = refl;
    }

pub queue_in_loop-pending :
    (b : Bool) (t : Task) (l : EventLoop Task)
    → (queue_in_loop b t l).pending_functors ≡ l.pending_functors ++ (t ∷ [])
unfolding queue_in_loop
queue_in_loop-pending b t l =
    if_cases (λ (m : EventLoop Task). m.pending_functors ≡ l.pending_functors ++ (t ∷ []))
      (not b || l.calling_pending_functors) refl refl

-- A pointer of the caller keeps the object.
may_call_alive : (b : Bool) {s : Shared} → Held s → may_call b s ≡ true → s.destroyed ≡ false
may_call_alive true {s} h c = go s.destroyed c
  where
    go : (d : Bool) → not d ≡ true → d ≡ false
    go false c = refl
    go true c = absurd cc
may_call_alive false {s} h c = elim (Bool-cases s.destroyed) [
  | inr alive ↦ alive
  | inl dead ↦ let z = h.gone dead in absurd (ground arith)
]

queued-Held :
    (b : Bool) (t : Task) (c : Connection) {s : Shared}
    → Held s
    → s.destroyed ≡ false
    → (0 < bare (t ∷ []) → 0 < s.holders)
    → Held (record s { connection = c; loop = queue_in_loop b t s.loop })
queued-Held b t c {s} h alive k = record {
  gone = λ d. absurd cc;
  kept = λ p.
      let e =
        ap bare (queue_in_loop-pending b t s.loop) ∙ bare-append s.loop.pending_functors (t ∷ []) in
      let holds = h.kept in ground arith;
  untouched = h.untouched;
}

-- A caller that may call, on an object that lives; another thread holds a pointer.
pub by_caller-Held :
    (b : Bool) (f : Shared → Shared) {s : Shared}
    → Held s
    → (s.destroyed ≡ false → (b ≡ false → 0 < s.holders) → Held (f s))
    → Held (by_caller b f s)
by_caller-Held b f {s} h k =
    if_split Held (may_call b s) (λ c. k (may_call_alive b h c) (λ e. holds b e c)) (λ c. h)
  where
    holds : (b : Bool) → b ≡ false → may_call b s ≡ true → 0 < s.holders
    holds true e c = absurd cc
    holds false e c = ground arith

pub run_task-Held :
    (t : Task) (r : WriteResult) {s : Shared} → Held s → s.destroyed ≡ false → Held (run_task t r s)
unfolding run_task
run_task-Held t r {s} h alive =
    if_split Held s.destroyed (λ dead. absurd cc) (λ d. Lower-Held (update-Lower (work t r) s) h)

pass_on-Held :
    (b : Bool) (t : Task) (r : WriteResult) {s : Shared}
    → Held s
    → s.destroyed ≡ false
    → (b ≡ false → 0 < s.holders)
    → Held (pass_on b t r s)
unfolding run_in_loop
pass_on-Held true t r h alive k = run_task-Held t r h alive
pass_on-Held false t r {s} h alive k = queued-Held false t s.connection h alive (λ p. k refl)

pub send-Held :
    (b : Bool) (xs : List Byte) (r : WriteResult) {s : Shared}
    → Held s
    → s.destroyed ≡ false
    → (b ≡ false → 0 < s.holders)
    → Held (send b xs r s)
unfolding send
send-Held b xs r {s} h alive k =
    if_cases Held (is_connected s.connection.state)
      (if_cases Held b (Lower-Held (update-Lower (send_in_loop xs r) s) h)
        (pass_on-Held b (send_task xs) r h alive k))
      h

pub reply-Held :
    (b : Bool) (xs : List Byte) (r : WriteResult) {s : Shared}
    → Held s
    → s.destroyed ≡ false
    → (b ≡ false → 0 < s.holders)
    → Held (reply b xs r s)
unfolding reply
reply-Held b xs r h alive k = pass_on-Held b (reply_task xs) r h alive k

pub send_buffer-Held :
    (b : Bool) (buf : Buffer) (r : WriteResult) {s : Shared}
    → Held s
    → s.destroyed ≡ false
    → (b ≡ false → 0 < s.holders)
    → Held (send_buffer b buf r s).1
unfolding send_buffer
send_buffer-Held b buf r {s} h alive k =
    if_cases (λ (x : Buffer × Shared). Held x.1) (is_connected s.connection.state)
      (pass_on-Held b (send_task (retrieve_all_as_string buf).0) r h alive k) h

pub shutdown-Held :
    (b : Bool) {s : Shared}
    → Held s
    → s.destroyed ≡ false
    → (b ≡ false → 0 < s.holders)
    → Held (shutdown b s)
unfolding shutdown
shutdown-Held b {s} h alive k =
    if_cases Held (is_connected s.connection.state)
      (pass_on-Held b shutdown_task WriteResult.would_block
        (record { gone = h.gone; kept = h.kept; untouched = h.untouched }) alive k)
      h

pub force_close-Held :
    (b : Bool) {s : Shared} → Held s → s.destroyed ≡ false → Held (force_close b s)
unfolding force_close
force_close-Held b {s} h alive =
    if_cases Held (is_connected s.connection.state || is_disconnecting s.connection.state)
      (queued-Held b close_task _ h alive (λ p. absurd (omega arith))) h

pub handle_event-Held :
    (readv : ℕ → ReadResult) (write : WriteResult) (r : Revents) {s : Shared}
    → Held s
    → Held (handle_event readv write r s)
unfolding handle_event
handle_event-Held readv write r {s} h =
    let u = Lower-Held (update-Lower (Dispatch.handle_event readv write r) s) h in
    if_cases Held s.tied (if_cases Held s.destroyed h u) u
