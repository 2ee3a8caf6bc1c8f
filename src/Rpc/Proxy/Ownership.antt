-- ===== src/Rpc/Proxy/Ownership.antt =====
-- Which descriptors include/rpc/service_proxy.h leaves open, and what becomes of a proxy that is moved from.
use rpc_framework.Base.{◌≡◌, refl, ap, ◌∙◌, Bool, true, false, ◌++◌, Option, none, some, append-nil}
use rpc_framework.Rpc.Channel.{disconnect}
use rpc_framework.Rpc.Channel.Socket
use rpc_framework.Rpc.Channel.Socket.{
  Kernel, Endpoint, descriptor, open_connection, close_connection,
}
use rpc_framework.Rpc.Channel.Socket.Descriptors.{
  IsTidy, open_connection-Tried, close_connection-IsTidy,
}
use rpc_framework.Rpc.Proxy.{
  Proxy, Construction, constructed, thrown, Destruction, destroyed, null_read, on_attempt,
  construct, destroy, move_from, move_assign,
}

-- Every descriptor that was opened has been closed, and only once.
abbrev pub AllClosed : Destruction → Type 0
AllClosed (destroyed e) = e.opened ≡ e.closed
AllClosed null_read = ⊥

abbrev pub Released : Option Endpoint → Type 0
Released none = Unit {0}
Released (some e) = e.opened ≡ e.closed

-- A failed constructor leaves nothing open; a proxy leaves nothing open when it is destroyed or assigned
-- to; and when it has been moved, the new one leaves nothing open, but the destructor of the old one,
-- which still runs, reads through a null pointer.
abbrev pub Owned : Construction → Type 0
Owned (thrown e) = e.opened ≡ e.closed
Owned (constructed p) =
    AllClosed (destroy p)
    × AllClosed (destroy (move_from p).0)
    × (destroy (move_from p).1 ≡ null_read)
    × ((q : Proxy) → Released (move_assign p q).0)

init-IsTidy : IsTidy Socket.init
init-IsTidy = record { accounted = refl; none_left = λ c. refl }

closed_connected : (e : Endpoint) → (close_connection e).channel.connected ≡ false
unfolding close_connection disconnect
closed_connected e = go e.channel.connected refl
  where
    go : (b : Bool) → e.channel.connected ≡ b → (close_connection e).channel.connected ≡ false
    go true c = simp c refl
    go false c = simp c refl

-- `disconnect` on a tidy endpoint leaves nothing open.
close-all : (e : Endpoint) → IsTidy e → (close_connection e).opened ≡ (close_connection e).closed
close-all e t =
    let u = close_connection-IsTidy e t in
    let d : Endpoint = close_connection e in
    u.accounted
    ∙ ap (λ fd. d.closed ++ descriptor fd) (u.none_left (closed_connected e))
    ∙ append-nil d.closed

-- Whatever the kernel answers: a constructor that throws has closed each descriptor that it opened,
-- once; a proxy whose connection has not been lost closes each of its descriptors once when it is
-- destroyed or assigned to, and so does the one that it is moved to; the destructor of the one that it
-- is moved from reads through a null pointer.
pub construct-Owned : (k : Kernel) → Owned (construct k)
unfolding construct destroy move_from move_assign
construct-Owned k =
    go (open_connection k Socket.init) (open_connection-Tried k Socket.init init-IsTidy refl).tidy
  where
    go : (r : Bool × Endpoint) → IsTidy r.1 → Owned (on_attempt r)
    go (false, e) t = close-all e t
    go (true, e) t =
        let twice = close-all (close_connection e) (close_connection-IsTidy e t) in
        (twice, twice, refl, λ q. close-all e t)
