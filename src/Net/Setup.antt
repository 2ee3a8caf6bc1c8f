-- ===== src/Net/Setup.antt =====
-- The constructors and destructors that open and close descriptors: `EpollPoller` (src/net/epoll_poller.cpp),
-- `EventLoop` (src/net/event_loop.cpp), `create_listen_fd` and `TcpServer` (src/net/tcp_server.cpp). What the
-- kernel answers is an argument; what sets options or fills in an address is left out.
use rpc_framework.Base.{ℕ, Bool, true, false, List, [], ◌∷◌, ◌++◌, Option, none, some}

-- A descriptor of `::epoll_create1`, `::eventfd` and `::socket`, and whether `::bind` and `::listen` succeed.
pub record Kernel : Type 0 where
  pub epoll_create1 : Option ℕ
  pub eventfd : Option ℕ
  pub socket : Option ℕ
  pub binds : Bool
  pub listens : Bool

-- The descriptors opened, the latest first, and those closed, in order.
pub record Ledger : Type 0 where
  pub opened : List ℕ
  pub closed : List ℕ

abbrev pub open_fd : ℕ → Ledger → Ledger
open_fd fd l = record l { opened = fd ∷ l.opened }

abbrev pub close_fd : ℕ → Ledger → Ledger
close_fd fd l = record l { closed = l.closed ++ (fd ∷ []) }

-- A constructor, or a function that throws.
pub data Attempt (A : Type 0) : Type 0 where
  made : A → Ledger → Attempt A
  threw : Ledger → Attempt A

abbrev or_throw : Option ℕ → Ledger → Attempt ℕ
or_throw none l = threw l
or_throw (some fd) l = made fd (open_fd fd l)

-- `EpollPoller::EpollPoller` and its destructor.
unfoldable pub construct_poller : Kernel → Ledger → Attempt ℕ
construct_poller k l = or_throw k.epoll_create1 l

unfoldable pub destroy_poller : ℕ → Ledger → Ledger
destroy_poller epfd l = close_fd epfd l

unfoldable pub create_eventfd : Kernel → Ledger → Attempt ℕ
create_eventfd k l = or_throw k.eventfd l

-- `epfd` is that of `poller_`.
pub record LoopFds : Type 0 where
  pub epfd : ℕ
  pub wakeup_fd : ℕ

-- Where `create_eventfd` throws, `poller_` is destroyed.
abbrev with_wakeup : ℕ → Attempt ℕ → Attempt LoopFds
with_wakeup epfd (made fd l) = made (record { epfd = epfd; wakeup_fd = fd }) l
with_wakeup epfd (threw l) = threw (close_fd epfd l)

abbrev with_poller : Kernel → Attempt ℕ → Attempt LoopFds
with_poller k (made epfd l) = with_wakeup epfd (create_eventfd k l)
with_poller k (threw l) = threw l

-- `EventLoop::EventLoop` and its destructor, the one of `poller_` included.
unfoldable pub construct_loop : Kernel → Ledger → Attempt LoopFds
unfolding construct_poller
construct_loop k l = with_poller k (construct_poller k l)

unfoldable pub destroy_loop : LoopFds → Ledger → Ledger
unfolding destroy_poller
destroy_loop f l = destroy_poller f.epfd (close_fd f.wakeup_fd l)

abbrev bound : Kernel → Attempt ℕ → Attempt ℕ
bound k (threw l) = threw l
bound k (made fd l) = elim k.binds [
  | false ↦ threw (close_fd fd l)
  | true ↦ elim k.listens [ false ↦ threw (close_fd fd l) | true ↦ made fd l ]
]

-- `create_listen_fd`, and with it `TcpServer::TcpServer`.
unfoldable pub create_listen_fd : Kernel → Ledger → Attempt ℕ
create_listen_fd k l = bound k (or_throw k.socket l)

-- `TcpServer::~TcpServer` as far as the listening socket goes.
unfoldable pub destroy_server : ℕ → Ledger → Ledger
destroy_server listen_fd l = close_fd listen_fd l
