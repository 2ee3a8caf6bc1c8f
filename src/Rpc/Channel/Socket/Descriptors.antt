-- ===== src/Rpc/Channel/Socket/Descriptors.antt =====
-- Which descriptors src/rpc/rpc_channel.cpp closes.
use rpc_framework.Base.{
  ℕ, ◌≡◌, refl, ap, sym, ◌∙◌, Bool, true, false, List, [], ◌∷◌, ◌++◌, Option, none, some, ◌==◌, inl,
  inr, Bool-cases, append-nil, subst,
}
use rpc_framework.Rpc.Channel.{connect, disconnect, connection_closed, bad_stream}
use rpc_framework.Rpc.Channel.Socket.{
  ConnectResult, at_once, in_progress, refused, Kernel, Endpoint, descriptor, established, give_up,
  on_connect, on_socket, open_connection, close_connection, Event, connects, disconnects, loses,
  garbles, step, run,
}

-- The descriptors opened are those closed and, while there is one, the present one.
pub record IsTidy (e : Endpoint) : Type 0 where
  pub accounted : e.opened ≡ e.closed ++ descriptor e.sockfd
  pub none_left : e.channel.connected ≡ false → e.sockfd ≡ none

-- `connect` with its result.
pub record Tried (b : Bool) (e : Endpoint) : Type 0 where
  pub tidy : IsTidy e
  pub result : e.channel.connected ≡ b

give_up-Tried :
    (e : Endpoint)
    → e.opened ≡ e.closed ++ descriptor e.sockfd
    → e.channel.connected ≡ false
    → Tried (give_up e).0 (give_up e).1
give_up-Tried e h off = record {
  tidy = record {
    accounted = h ∙ sym (append-nil (e.closed ++ descriptor e.sockfd));
    none_left = λ c. refl;
  };
  result = off;
}

established-Tried :
    (e : Endpoint)
    → e.opened ≡ e.closed ++ descriptor e.sockfd
    → Tried (established e).0 (established e).1
unfolding connect
established-Tried e h = record {
  tidy = record { accounted = h; none_left = λ c. cc };
  result = refl;
}

on_connect-Tried :
    (k : Kernel) (r : ConnectResult) (e : Endpoint)
    → e.opened ≡ e.closed ++ descriptor e.sockfd
    → e.channel.connected ≡ false
    → Tried (on_connect k r e).0 (on_connect k r e).1
on_connect-Tried k at_once e h off = established-Tried e h
on_connect-Tried k refused e h off = give_up-Tried e h off
on_connect-Tried k in_progress e h off = elim (Bool-cases k.writable_in_time) [
  | inr late ↦ rw late (give_up-Tried e h off)
  | inl ready ↦ elim (Bool-cases (k.so_error == 0)) [
    | inl good ↦ rw (ready, good) (established-Tried e h)
    | inr bad ↦ rw (ready, bad) (give_up-Tried e h off)
  ]
]

-- `connect` on a channel that is not connected returns whether the channel is connected, and on every
-- path that fails it has closed the descriptor that it opened.
pub open_connection-Tried :
    (k : Kernel) (e : Endpoint)
    → IsTidy e
    → e.channel.connected ≡ false
    → Tried (open_connection k e).0 (open_connection k e).1
unfolding open_connection
open_connection-Tried k e t off = go k.socket
  where
    all : e.opened ≡ e.closed
    all = t.accounted ∙ ap (λ fd. e.closed ++ descriptor fd) (t.none_left off) ∙ append-nil e.closed

    go : (fd : Option ℕ) → Tried (on_socket k fd e).0 (on_socket k fd e).1
    go none = record {
      tidy = record { accounted = all ∙ sym (append-nil e.closed); none_left = λ c. refl };
      result = off;
    }
    go (some fd) =
        on_connect-Tried k k.connects
          (record e { sockfd = some fd; opened = e.opened ++ (fd ∷ []) })
          (ap (λ fds. fds ++ (fd ∷ [])) all) off

pub close_connection-IsTidy : (e : Endpoint) → IsTidy e → IsTidy (close_connection e)
unfolding close_connection disconnect
close_connection-IsTidy e t = elim (Bool-cases e.channel.connected) [
  | inl on ↦ simp on (record {
    accounted = t.accounted ∙ sym (append-nil (e.closed ++ descriptor e.sockfd));
    none_left = λ c. refl;
  })
  | inr off ↦ simp off t
]

-- The caller connects only a channel that is not connected, and the connection is not lost.
abbrev pub Kept : List Event → Endpoint → Type 0
Kept [] e = Unit {0}
Kept (connects k ∷ es) e = (e.channel.connected ≡ false) × Kept es (step (connects k) e)
Kept (disconnects ∷ es) e = Kept es (step disconnects e)
Kept (loses ∷ es) e = ⊥
Kept (garbles ∷ es) e = ⊥

-- As long as the caller connects only a channel that is not connected and no connection is lost, every
-- descriptor that has been opened is closed, once and in order, but the one of a connection that
-- stands; and a channel that is not connected has none open.
pub run-IsTidy : (es : List Event) {e : Endpoint} → IsTidy e → Kept es e → IsTidy (run es e)
unfolding step
run-IsTidy [] t w = t
run-IsTidy (connects k ∷ es) {e} t (off, w) = run-IsTidy es (open_connection-Tried k e t off).tidy w
run-IsTidy (disconnects ∷ es) {e} t w = run-IsTidy es (close_connection-IsTidy e t) w
run-IsTidy (loses ∷ es) t w = absurd w
run-IsTidy (garbles ∷ es) t w = absurd w

-- Whether the caller connects again.
abbrev pub connects_again : List Event → Bool
connects_again [] = false
connects_again (connects k ∷ es) = true
connects_again (disconnects ∷ es) = connects_again es
connects_again (loses ∷ es) = connects_again es
connects_again (garbles ∷ es) = connects_again es

-- Once the reader thread has found the connection lost, or the stream bad, no `disconnect` closes the
-- descriptor any more, nor does the destructor: it stays open in every later run without a `connect`.
pub run_leaks :
    (es : List Event) (e : Endpoint)
    → e.channel.connected ≡ false
    → connects_again es ≡ false
    → ((run es e).sockfd ≡ e.sockfd) × ((run es e).closed ≡ e.closed)
unfolding step close_connection connection_closed bad_stream
run_leaks [] e off again = (refl, refl)
run_leaks (connects k ∷ es) e off again = absurd (true_false again)
  where
    true_false : true ≡ false → ⊥
    true_false h = cc
run_leaks (disconnects ∷ es) e off again =
    let still : close_connection e ≡ e = simp off refl in
    subst (λ x. ((run es x).sockfd ≡ e.sockfd) × ((run es x).closed ≡ e.closed)) (sym still)
      (run_leaks es e off again)
run_leaks (loses ∷ es) e off again = run_leaks es (step loses e) refl again
run_leaks (garbles ∷ es) e off again = run_leaks es (step garbles e) refl again
