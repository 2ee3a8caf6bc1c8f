-- ===== src/Rpc/Server/Running.antt =====
-- include/rpc/rpc_server.h and src/rpc/rpc_server.cpp: an `RpcServer` as it is made, started, ended and
-- destroyed, over its `loop_` and its `server_`.
use rpc_framework.Base.{
  ℕ, ◌≤◌, ◌≡◌, ◌≢◌, refl, Bool, true, false, List, [], ◌∷◌, Option, none, some,
}
use rpc_framework.Net.EventLoop.{quit_loop}
use rpc_framework.Net.EventLoop.Looping
use rpc_framework.Net.EventLoop.Looping.{Looping, Event, goes_on, returned, turns, no_quits}
use rpc_framework.Net.EventLoop.Looping.Quitting.{quit_ends, early_quit_lost, run_inside}
use rpc_framework.Net.TcpServer
use rpc_framework.Net.TcpServer.{TcpServer}
use rpc_framework.Net.Setup.{
  Kernel, Ledger, Attempt, made, threw, LoopFds, construct_loop, destroy_loop, create_listen_fd,
  destroy_server, construct_poller, destroy_poller, create_eventfd,
}

pub record ServerFds : Type 0 where
  pub loop_fds : LoopFds
  pub listen_fd : ℕ

-- Where `server_` throws, `loop_` is destroyed.
abbrev with_server : LoopFds → Attempt ℕ → Attempt ServerFds
with_server f (made fd l) = made (record { loop_fds = f; listen_fd = fd }) l
with_server f (threw l) = threw (destroy_loop f l)

abbrev with_loop : Kernel → Attempt LoopFds → Attempt ServerFds
with_loop k (made f l) = with_server f (create_listen_fd k l)
with_loop k (threw l) = threw l

-- `RpcServer::RpcServer` and its destructor: the members are destroyed in the reverse order.
pub construct : Kernel → Ledger → Attempt ServerFds
construct k l = with_loop k (construct_loop k l)

pub destroy : ServerFds → Ledger → Ledger
destroy s l = destroy_loop s.loop_fds (destroy_server s.listen_fd l)

-- All that was opened since `l` has been closed, the latest first.
abbrev pub AllClosed : Attempt ServerFds → Type 0
AllClosed (threw m) = m.closed ≡ m.opened
AllClosed (made s m) = (destroy s m).closed ≡ (destroy s m).opened

abbrev pub nothing_yet : Ledger
nothing_yet = record { opened = []; closed = [] }

-- Whatever the kernel answers, a server that cannot be made, because no poller, no event descriptor or no
-- socket is to be had or the socket cannot be bound or listened on, has closed each descriptor that it
-- opened, once, the latest first; and so has a server that is made and destroyed.
pub construct-AllClosed : (k : Kernel) → AllClosed (construct k nothing_yet)
unfolding construct construct_loop construct_poller create_eventfd create_listen_fd destroy
    destroy_loop destroy_poller destroy_server
construct-AllClosed k = go k.epoll_create1 k.eventfd k.socket k.binds k.listens
  where
    go :
        (e w s : Option ℕ) (b l : Bool)
        → AllClosed (
            construct
              (record { epoll_create1 = e; eventfd = w; socket = s; binds = b; listens = l })
              nothing_yet)
    go none w s b l = refl
    go (some e) none s b l = refl
    go (some e) (some w) none b l = refl
    go (some e) (some w) (some s) false l = refl
    go (some e) (some w) (some s) true false = refl
    go (some e) (some w) (some s) true true = refl

-- `loop_`, whose functors are of no concern here, and `server_`.
pub record RpcServer : Type 0 where
  pub looping : Looping (Unit {0})
  pub server : TcpServer

unfoldable pub init : RpcServer
init = record { looping = Looping.start; server = TcpServer.init }

-- `RpcServer::start` up to the first test of the loop that it enters.
unfoldable pub start : RpcServer → RpcServer
start s = record { looping = Looping.step goes_on s.looping; server = TcpServer.start s.server }

-- `RpcServer::quit`, and what the destructor does first; the Boolean is `is_in_loop_thread()`.
unfoldable pub quit : Bool → RpcServer → RpcServer
quit in_thread s = record s {
  looping = record s.looping { loop = quit_loop in_thread s.looping.loop };
}

-- What the threads do to the loop.
abbrev pub goes : List Event → RpcServer → RpcServer
goes es s = record s { looping = Looping.run es s.looping }

-- `loop` has been entered.
entered :
    (s : Looping (Unit {0}))
    → s.place ≡ Looping.outside
    → (Looping.step goes_on s).place ≢ Looping.outside
unfolding Looping.step
entered s e = rw e (λ h. cc)

-- A server that has been started accepts connections, and `start` returns after at most four further steps
-- of its thread once `quit` has been called in another thread, at whatever point that was. A `quit` before
-- `start` is lost: as long as nobody quits again, `start` does not return.
pub quit_lem :
    (before after later : List Event)
    → 4 ≤ turns after
    → no_quits later ≡ true
    → ((goes after (quit false (goes before (start init)))).looping.place ≡ returned)
      × ((goes before (start init)).server.accepting ≡ true)
      × ((goes later (start (quit false init))).looping.place ≢ returned)
unfolding start quit init Looping.start Looping.step TcpServer.init TcpServer.start
quit_lem before after later enough alone = (
  quit_ends (Unit {0}) (goes_on ∷ before) after (run_inside before _ (entered Looping.start refl))
      enough,
  refl,
  early_quit_lost (Unit {0}) (goes_on ∷ later) alone,
)
