-- ===== src/Net/Poller/Growth.antt =====
-- The list of events of src/net/epoll_poller.cpp grows until a round reports every channel that is ready.
use rpc_framework.Base.{
  ℕ, zero, suc, ◌*◌, ◌^◌, ◌≤◌, ◌<◌, min, ◌≡◌, ◌≢◌, refl, sym, ap, ◌∙◌, List, [], ◌∷◌, ◌++◌, Option,
  length, ◌==◌, arith, append_assoc, append-nil, if_split,
}
use native.Mathlib.Omega.{pow_step}
use native.Mathlib.Nat.{mul_assoc, one-le-pow, le-mul_of_pos_right}
use rpc_framework.Base.Int.{ℤ, pos, to_int, to_int-small}
use rpc_framework.Base.Map.{find, put, nat_eq, find-put_same, find-put_ne}
use rpc_framework.Net.Channel.{Revents}
use rpc_framework.Net.Poller.{
  Poller, WaitResult, reported, fill_active_channels, after_wait, poll, known, handle_active,
  poll_round,
}

-- The channel is none of these.
abbrev pub Absent : ℕ → List (ℕ × Revents) → Type 0
Absent ch [] = Unit {0}
Absent ch ((c, r) ∷ es) = (ch ≢ c) × Absent ch es

-- No channel is reported twice.
abbrev pub Distinct : List (ℕ × Revents) → Type 0
Distinct [] = Unit {0}
Distinct ((c, r) ∷ es) = Absent c es × Distinct es

abbrev pub channels : List (ℕ × Revents) → List ℕ
channels [] = []
channels ((c, r) ∷ es) = c ∷ channels es

fill_active_channels-channels :
    (es : List (ℕ × Revents)) (active : List ℕ) (m : List (ℕ × Revents))
    → (fill_active_channels es active m).0 ≡ active ++ channels es
unfolding fill_active_channels
fill_active_channels-channels [] active m = sym (append-nil active)
fill_active_channels-channels ((c, r) ∷ es) active m =
    fill_active_channels-channels es (active ++ (c ∷ [])) (put c r m)
    ∙ append_assoc active (c ∷ []) (channels es)

find-fill_active_channels :
    (ch : ℕ) (es : List (ℕ × Revents)) (active : List ℕ) (m : List (ℕ × Revents))
    → Absent ch es
    → find ch (fill_active_channels es active m).1 ≡ find ch m
unfolding fill_active_channels
find-fill_active_channels ch [] active m a = refl
find-fill_active_channels ch ((c, r) ∷ es) active m (n, a) =
    find-fill_active_channels ch es (active ++ (c ∷ [])) (put c r m) a
    ∙ find-put_ne c ch r m (λ e. n (sym e))

module _ {ℓ} {W : Type ℓ} (h : ℕ → Revents → W → W) where
  -- Each channel with the flags reported for it, in order.
  abbrev pub handle_reported : List (ℕ × Revents) → W → W
  handle_reported [] w = w
  handle_reported ((c, r) ∷ es) w = handle_reported es (h c r w)

  handle_active-fill_active_channels :
      (es : List (ℕ × Revents)) (active : List ℕ) (m : List (ℕ × Revents)) (w : W)
      → Distinct es
      → handle_active h (channels es) (fill_active_channels es active m).1 w ≡ handle_reported es w
  unfolding fill_active_channels
  handle_active-fill_active_channels [] active m w d = refl
  handle_active-fill_active_channels ((c, r) ∷ es) active m w (a, d) =
      handle_active-fill_active_channels es (active ++ (c ∷ [])) (put c r m) _ d
      ∙ ap (λ (f : Option Revents). handle_reported es (h c (known f) w))
          (find-fill_active_channels c es (active ++ (c ∷ [])) (put c r m) a
            ∙ (find-put_same c r m))

  -- A round hands each event that is reported to its channel, in order.
  poll_round-reported :
      (wait : ℤ → WaitResult) (es : List (ℕ × Revents)) (p : Poller) (w : W)
      → wait (to_int p.events_size) ≡ reported es
      → Distinct es
      → (poll_round h wait p w).0 ≡ handle_reported es w
  unfolding poll_round poll after_wait
  poll_round-reported wait es p w found d =
      ap (λ (r : WaitResult). handle_active h (after_wait r [] p).0 (after_wait r [] p).1.revents w)
        found
      ∙ ap (λ (chs : List ℕ). handle_active h chs (fill_active_channels es [] p.revents).1 w)
          (fill_active_channels-channels es [] p.revents)
      ∙ handle_active-fill_active_channels es [] p.revents w d

doubled : (m k : ℕ) → m * 2 ^ suc k ≡ m * 2 * 2 ^ k
doubled m k = ap (◌*◌ m) (pow_step 2 k) ∙ sym (mul_assoc m 2 (2 ^ k))

le-shifted : (m k : ℕ) → m ≤ m * 2 ^ k
le-shifted m k = le-mul_of_pos_right m (one-le-pow k 2 (omega arith))

-- The list of events has room for one and, doubled `k` times, for all that are ready; its size is an `int`.
abbrev Room : ℕ → List (ℕ × Revents) → ℕ → Type 0
Room k ready m = (0 < m) × (m * 2 ^ k < 2147483648) × (length ready ≤ m * 2 ^ k)

Room-int : (k : ℕ) (ready : List (ℕ × Revents)) (m : ℕ) → Room k ready m → m < 2147483648
Room-int k ready m (some_room, int, all) = let e = le-shifted m k in omega arith

-- `epoll_wait`, given a length that is positive, returns as many events as are ready and fit, and all of
-- them where they fit. Of other lengths, which it refuses, nothing is said.
module _ (epoll_wait : ℤ → List (ℕ × Revents) → List (ℕ × Revents))
    (fills : (n : ℕ) (es : List (ℕ × Revents))
      → 0 < n
      → n < 2147483648
      → length (epoll_wait (pos n) es) ≡ min n (length es))
    (fits : (n : ℕ) (es : List (ℕ × Revents))
      → 0 < n
      → n < 2147483648
      → length es ≤ n
      → epoll_wait (pos n) es ≡ es) where
  -- `k` rounds in which the same channels are ready.
  abbrev pub polls : ℕ → List (ℕ × Revents) → Poller → Poller
  polls zero ready p = p
  polls (suc k) ready p = polls k ready (poll (λ n. reported (epoll_wait n ready)) [] p).1

  poll-Room :
      (k : ℕ) (ready : List (ℕ × Revents)) (p : Poller)
      → Room (suc k) ready p.events_size
      → Room k ready (poll (λ n. reported (epoll_wait n ready)) [] p).1.events_size
  unfolding poll after_wait
  poll-Room k ready p room =
      let int = Room-int (suc k) ready p.events_size room in
      let whole = fills p.events_size ready room.0 int in
      let e = doubled p.events_size k in
      let f = le-shifted p.events_size k in
      rw (to_int-small p.events_size int) (
        if_split (λ (m : ℕ). Room k ready m)
          (length (epoll_wait (pos p.events_size) ready) == p.events_size)
          (λ full. (omega arith, omega arith, omega arith))
          (λ part. (omega arith, omega arith, ground arith)))

  polls-Room :
      (k : ℕ) (ready : List (ℕ × Revents)) (p : Poller)
      → Room k ready p.events_size
      → Room 0 ready (polls k ready p).events_size
  polls-Room zero ready p room = room
  polls-Room (suc k) ready p room = polls-Room k ready _ (poll-Room k ready p room)

  -- Where `n` channels stay ready and the list of events has room for `m` of them, then after `k` rounds
  -- with `m * 2 ^ k` at least `n` the next round runs the handler of every channel that is ready, once,
  -- in order and with the flags reported for it, also when more were ready at first than fit. The
  -- channels are distinct, `m` is positive, `m * 2 ^ k` is an `int`, and `epoll_wait`, given a positive
  -- length, returns as many events as are ready and fit: it reports a channel in each round in which it
  -- is ready, since none is registered as edge-triggered.
  pub round_dispatches {ℓ} :
      {W : Type ℓ} (h : ℕ → Revents → W → W) (k : ℕ) (ready : List (ℕ × Revents)) (p : Poller)
      (w : W)
      → Distinct ready
      → 0 < p.events_size
      → p.events_size * 2 ^ k < 2147483648
      → length ready ≤ p.events_size * 2 ^ k
      → (poll_round h (λ n. reported (epoll_wait n ready)) (polls k ready p) w).0
        ≡ handle_reported h ready w
  round_dispatches h k ready p w d some_room int all =
      let q : Poller = polls k ready p in
      let room = polls-Room k ready p (some_room, int, all) in
      let small = Room-int 0 ready q.events_size room in
      poll_round-reported h (λ n. reported (epoll_wait n ready)) ready q w
        (ap (λ n. reported (epoll_wait n ready)) (to_int-small q.events_size small)
          ∙ ap reported (fits q.events_size ready room.0 small (omega arith)))
        d
