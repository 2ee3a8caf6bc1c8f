-- ===== src/Tests/Poller.antt =====
-- Rounds of src/net/epoll_poller.cpp.
use rpc_framework.Base.{ℕ, ◌≡◌, List, [], ◌∷◌, take, true, length-take, take-eq_self, arith}
use rpc_framework.Base.Int.{ℤ, pos_part}
use rpc_framework.Net.Channel.{Revents}
use rpc_framework.Net.Poller.{Poller, reported, no_revents, poll_round}
use rpc_framework.Net.Poller.Growth.{polls, round_dispatches}

-- Three channels are ready, and the list of events has room for one.
abbrev readable : Revents
readable = record no_revents { in_ = true }

abbrev ready : List (ℕ × Revents)
ready = (5, readable) ∷ (6, no_revents) ∷ (9, readable) ∷ []

abbrev small : Poller
small = record { events_size = 1; revents = [] }

-- Each handler notes its channel.
abbrev note : ℕ → Revents → List ℕ → List ℕ
note ch r chs = ch ∷ chs

abbrev kernel : ℤ → List (ℕ × Revents) → List (ℕ × Revents)
kernel n es = take (pos_part n) es

round_dispatches_example :
    (poll_round note
      (λ n. reported (kernel n ready))
      (polls kernel (λ n es a b. length-take n es) (λ n es a b. take-eq_self n es) 2 ready small)
      []).0
    ≡ 9 ∷ 6 ∷ 5 ∷ []
round_dispatches_example =
    round_dispatches kernel (λ n es a b. length-take n es) (λ n es a b. take-eq_self n es) note 2
      ready small []
      (
        (λ e. absurd (omega arith), (λ e. absurd (omega arith), tt)),
        ((λ e. absurd (omega arith), tt), (tt, tt)),
      )
      (omega arith) (omega arith) (omega arith)
