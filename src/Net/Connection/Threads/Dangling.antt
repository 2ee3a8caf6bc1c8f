-- ===== src/Net/Connection/Threads/Dangling.antt =====
-- A functor of src/net/tcp_connection.cpp that runs after the connection has been destroyed.
use rpc_framework.Base.{ℕ, ◌≡◌, refl, ap, ◌∙◌, Bool, true, false, List, [], ◌∷◌, Byte, arith}
use rpc_framework.Net.Buffer.ReadFd.{ReadResult}
use rpc_framework.Net.Channel.{Revents}
use rpc_framework.Net.Channel.Dispatch
use rpc_framework.Net.Channel.{handle_event_with_guard}
use rpc_framework.Net.EventLoop
use rpc_framework.Net.EventLoop.{EventLoop, queue_in_loop, run_in_loop, swap_functors, end_functors}
use rpc_framework.Net.Connection.{
  Connection, connected, is_connected, handle_close, WriteResult, disconnecting,
}
use rpc_framework.Net.Connection.Closing.Fate.{handle_close-closed_now}
use rpc_framework.Net.Connection.Threads.{
  Task, send_task, reply_task, shutdown_task, close_task, Shared, owning, run_task, send, shutdown,
  handle_event, Event, sends, shuts_down, drops, handles, swaps, calls_next, step, run,
}

-- A connection to which another thread holds a pointer.
abbrev pub lent : Connection → Shared
lent c = record {
  connection = c;
  loop = EventLoop.init;
  batch = [];
  spent = [];
  tied = true;
  in_map = true;
  holders = 1;
  destroyed = false;
  touched = false;
}

abbrev pub hung_up : Revents
hung_up = record { hup = true; in_ = false; err = false; pri = false; rdhup = false; out = false }

-- The functor is queued, the pointer has gone.
abbrev waiting : Task → Connection → Shared
waiting t c = record (lent c) { loop = queue_in_loop false t EventLoop.init; holders = 0 }

hang_up_destroys :
    (t : Task) (readv : ℕ → ReadResult) (r : WriteResult) (c : Connection)
    → c.removed ≡ false
    → owning (t ∷ []) ≡ 0
    → step (handles readv r hung_up) (waiting t c)
      ≡ record (waiting t c) { connection = handle_close c; in_map = false; destroyed = true }
unfolding step handle_event Dispatch.handle_event handle_event_with_guard Dispatch.callbacks
    queue_in_loop EventLoop.init handle_close
hang_up_destroys t readv r c there none_held =
    rw (there, handle_close-closed_now c c refl, none_held) refl

called :
    (t : Task) (r : WriteResult) (c : Connection)
    → owning (t ∷ []) ≡ 0
    → (run (swaps ∷ calls_next r ∷ []) (record (waiting t c) {
      connection = handle_close c;
      in_map = false;
      destroyed = true;
    })).touched
      ≡ true
unfolding step swap_functors run_task queue_in_loop EventLoop.init
called (send_task xs) r c b = refl
called shutdown_task r c b = refl
called close_task r c b = absurd (omega arith)
called (reply_task xs) r c b = absurd (omega arith)

task_dangles :
    (t : Task) (readv : ℕ → ReadResult) (r : WriteResult) (c : Connection)
    → c.removed ≡ false
    → owning (t ∷ []) ≡ 0
    → (run (handles readv r hung_up ∷ swaps ∷ calls_next r ∷ []) (waiting t c)).touched ≡ true
task_dangles t readv r c there none_held =
    ap (λ s. (run (swaps ∷ calls_next r ∷ []) s).touched)
      (hang_up_destroys t readv r c there none_held)
    ∙ called t r c none_held

sent-waiting :
    (xs : List Byte) (r : WriteResult) (c : Connection)
    → c.state ≡ connected
    → step drops (step (sends false xs r) (lent c)) ≡ waiting (send_task xs) c
unfolding step send run_in_loop queue_in_loop EventLoop.init
sent-waiting xs r c on = rw (ap is_connected on) refl

shut-waiting :
    (c : Connection)
    → c.state ≡ connected
    → step drops (step (shuts_down false) (lent c))
      ≡ waiting shutdown_task (record c { state = disconnecting })
unfolding step shutdown run_in_loop queue_in_loop EventLoop.init
shut-waiting c on = rw (ap is_connected on) refl

-- When a thread other than the loop's has sent something, or shut down, and lets its pointer go, and
-- the loop then finds that the peer has hung up, the functor runs on a connection that has been
-- destroyed.
pub call_dangles :
    (xs : List Byte) (readv : ℕ → ReadResult) (r : WriteResult) (c : Connection)
    → c.state ≡ connected
    → c.removed ≡ false
    → let rest : List Event = drops ∷ handles readv r hung_up ∷ swaps ∷ calls_next r ∷ [] in
      ((run (sends false xs r ∷ rest) (lent c)).touched ≡ true)
      × ((run (shuts_down false ∷ rest) (lent c)).touched ≡ true)
call_dangles xs readv r c on there = (
  ap after (sent-waiting xs r c on) ∙ task_dangles (send_task xs) readv r c there refl,
  ap after (shut-waiting c on)
      ∙ task_dangles shutdown_task readv r (record c { state = disconnecting }) there refl,
)
  where
    after : Shared → Bool
    after s = (run (handles readv r hung_up ∷ swaps ∷ calls_next r ∷ []) s).touched
