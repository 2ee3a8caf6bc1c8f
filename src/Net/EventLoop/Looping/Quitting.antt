-- ===== src/Net/EventLoop/Looping/Quitting.antt =====
-- When src/net/event_loop.cpp leaves its loop.
use rpc_framework.Base.{
  ℕ, ◌-◌, ◌≤◌, ◌≡◌, ◌≢◌, refl, sym, ap, ◌∙◌, Bool, true, false, List, [], ◌∷◌, arith, if_cases,
}
use rpc_framework.Net.EventLoop.{EventLoop, quit_loop}
use rpc_framework.Net.EventLoop.Looping.{
  Place, outside, testing, polling, handling, calling, returned, Looping, Event, goes_on, own_quits,
  other_quits, start, advance, quit_here, step, run, turns, no_quits,
}

-- The steps to the end of the round and out of the loop.
abbrev pub distance : Place → ℕ
distance outside = 0
distance testing = 1
distance polling = 4
distance handling = 3
distance calling = 2
distance returned = 0

module _ {ℓ} {Functor : Type ℓ} where
  quit_loop-quit : (b : Bool) (l : EventLoop Functor) → (quit_loop b l).quit ≡ true
  unfolding quit_loop
  quit_loop-quit b l = if_cases (λ (m : EventLoop Functor). m.quit ≡ true) b refl refl

  -- A quit that the loop has still to obey.
  record Asked (s : Looping Functor) : Type ℓ where
    pub inside : s.place ≢ outside
    pub asked : s.loop.quit ≡ true

  -- The thread of the loop comes closer to the end.
  record Nearer (p : Place) (s : Looping Functor) : Type ℓ where
    pub still_asked : Asked s
    pub nearer : distance s.place ≤ distance p - 1

  advance-Nearer :
      (p : Place) (s : Looping Functor) → s.place ≡ p → Asked s → Nearer p (advance p s)
  advance-Nearer outside s e a = absurd (a.inside e)
  advance-Nearer testing s e a =
      rw a.asked
        (record { still_asked = record { inside = λ h. cc; asked = refl }; nearer = omega arith })
  advance-Nearer polling s e a = record {
    still_asked = record { inside = λ h. cc; asked = a.asked };
    nearer = omega arith;
  }
  advance-Nearer handling s e a = record {
    still_asked = record { inside = λ h. cc; asked = a.asked };
    nearer = omega arith;
  }
  advance-Nearer calling s e a = record {
    still_asked = record { inside = λ h. cc; asked = a.asked };
    nearer = omega arith;
  }
  advance-Nearer returned s e a = record {
    still_asked = a;
    nearer = let z = ap distance e in omega arith;
  }

  asks_again :
      (b : Bool) {s : Looping Functor} → Asked s → Asked (record s { loop = quit_loop b s.loop })
  asks_again b {s} a = record { inside = a.inside; asked = quit_loop-quit b s.loop }

  quit_here-place : (p : Place) (s : Looping Functor) → (quit_here p s).place ≡ s.place
  quit_here-place outside s = refl
  quit_here-place testing s = refl
  quit_here-place polling s = refl
  quit_here-place handling s = refl
  quit_here-place calling s = refl
  quit_here-place returned s = refl

  quit_here-Asked : (p : Place) {s : Looping Functor} → Asked s → Asked (quit_here p s)
  quit_here-Asked outside a = a
  quit_here-Asked testing a = a
  quit_here-Asked polling a = a
  quit_here-Asked handling a = asks_again true a
  quit_here-Asked calling a = asks_again true a
  quit_here-Asked returned a = a

  returns :
      (es : List Event) {s : Looping Functor}
      → Asked s
      → distance s.place ≤ turns es
      → (run es s).place ≡ returned
  unfolding step
  returns [] {s} a d = go s.place refl
    where
      go : (p : Place) → s.place ≡ p → s.place ≡ returned
      go outside e = absurd (a.inside e)
      go testing e = let z = ap distance e in absurd (omega arith)
      go polling e = let z = ap distance e in absurd (omega arith)
      go handling e = let z = ap distance e in absurd (omega arith)
      go calling e = let z = ap distance e in absurd (omega arith)
      go returned e = e
  returns (goes_on ∷ es) {s} a d =
      let n = advance-Nearer s.place s refl a in returns es n.still_asked (omega (arith, n.nearer))
  returns (own_quits ∷ es) {s} a d =
      returns es (quit_here-Asked s.place a)
        (let z = ap distance (quit_here-place s.place s) in omega arith)
  returns (other_quits ∷ es) a d = returns es (asks_again false a) d

  advance-inside :
      (p : Place) (s : Looping Functor)
      → s.place ≡ p
      → s.place ≢ outside
      → (advance p s).place ≢ outside
  advance-inside outside s e i = absurd (i e)
  advance-inside testing s e i =
      if_cases (λ (q : Place). q ≢ outside) s.loop.quit (λ h. cc) (λ h. cc)
  advance-inside polling s e i = λ h. cc
  advance-inside handling s e i = λ h. cc
  advance-inside calling s e i = λ h. cc
  advance-inside returned s e i = i

  -- A loop that has been entered is never where it was before.
  pub run_inside :
      (es : List Event) (s : Looping Functor) → s.place ≢ outside → (run es s).place ≢ outside
  unfolding step
  run_inside [] s i = i
  run_inside (goes_on ∷ es) s i = run_inside es _ (advance-inside s.place s refl i)
  run_inside (own_quits ∷ es) s i = run_inside es _ (λ h. i (sym (quit_here-place s.place s) ∙ h))
  run_inside (other_quits ∷ es) s i = run_inside es _ i

  -- Not in the loop yet, or in it with nothing to obey.
  data Unasked (s : Looping Functor) : Type ℓ where
    not_entered : s.place ≡ outside → Unasked s
    unasked : s.place ≢ outside → s.place ≢ returned → s.loop.quit ≡ false → Unasked s

  advance-Unasked :
      (p : Place) (s : Looping Functor) → s.place ≡ p → Unasked s → Unasked (advance p s)
  advance-Unasked outside s e u = unasked (λ h. cc) (λ h. cc) refl
  advance-Unasked testing s e (not_entered o) = absurd cc
  advance-Unasked polling s e (not_entered o) = absurd cc
  advance-Unasked handling s e (not_entered o) = absurd cc
  advance-Unasked calling s e (not_entered o) = absurd cc
  advance-Unasked returned s e (not_entered o) = absurd cc
  advance-Unasked testing s e (unasked i r q) = rw q (unasked (λ h. cc) (λ h. cc) refl)
  advance-Unasked polling s e (unasked i r q) = unasked (λ h. cc) (λ h. cc) q
  advance-Unasked handling s e (unasked i r q) = unasked (λ h. cc) (λ h. cc) q
  advance-Unasked calling s e (unasked i r q) = unasked (λ h. cc) (λ h. cc) q
  advance-Unasked returned s e (unasked i r q) = absurd (r e)

-- When a thread quits once the loop has been entered, the loop returns after at most four further steps
-- of its own thread, the rest of the round and the test, whatever else the threads do.
pub quit_ends {ℓ} :
    (Functor : Type ℓ) (before after : List Event)
    → (run before (start {Functor = Functor})).place ≢ outside
    → 4 ≤ turns after
    → (run after (step other_quits (run before (start {Functor = Functor})))).place ≡ returned
unfolding step
quit_ends Functor before after inside enough =
    returns after (record { inside = inside; asked = quit_loop-quit false _ })
      (omega (arith, far (run before (start {Functor = Functor})).place))
  where
    far : (p : Place) → distance p ≤ 4
    far outside = omega arith
    far testing = omega arith
    far polling = omega arith
    far handling = omega arith
    far calling = omega arith
    far returned = omega arith

-- Whoever quits before the loop has been entered, if nobody quits afterwards, the loop never returns.
pub early_quit_lost {ℓ} :
    (Functor : Type ℓ) (es : List Event)
    → no_quits es ≡ true
    → (run es (step other_quits (start {Functor = Functor}))).place ≢ returned
unfolding step start
early_quit_lost Functor es q = go es (not_entered refl) q
  where
    go :
        (es : List Event) {s : Looping Functor}
        → Unasked s
        → no_quits es ≡ true
        → (run es s).place ≢ returned
    go [] (not_entered o) q h = cc
    go [] (unasked i r f) q h = r h
    go (goes_on ∷ es) {s} u q h = go es (advance-Unasked s.place s refl u) q h
    go (own_quits ∷ es) u q h = cc
    go (other_quits ∷ es) u q h = cc
