-- ===== src/Net/EventLoop/Functors/Rounds.antt =====
-- What each step of the thread of src/net/event_loop.cpp does to the functors that are queued.
use rpc_framework.Base.{
  zero, ◌-◌, ◌==◌, ◌<◌, ◌≡◌, refl, sym, ap, ◌∙◌, inl, inr, Bool, true, false, not, ◌||◌, List, [],
  ◌∷◌, ◌++◌, arith, append_assoc, append-nil, if_cases, subst,
}
use rpc_framework.Net.EventLoop.{
  EventLoop, init, push_functor, wake_after, handle_read, swap_functors, end_functors,
}
use rpc_framework.Net.EventLoop.Functors.{
  Phase, polling, handling, handling_pushed, calling, calling_pushed, Thread, Event, other_pushes,
  own_pushes, other_wakes, own_wakes, polls, reads_wakeup, swaps, calls_next, ends, start, own_step,
  step, run, own_news, news, queued, Woken,
}

module _ {ℓ} {Functor : Type ℓ} where
  abbrev pub Fits : Phase → Thread Functor → Type ℓ
  Fits polling s = (s.batch ≡ []) × Woken s
  Fits handling s = (s.batch ≡ []) × (s.batch ≡ [])
  Fits handling_pushed s = (s.batch ≡ []) × (s.batch ≡ [])
  Fits calling s = (s.loop.calling_pending_functors ≡ true) × Woken s
  Fits calling_pushed s = (s.loop.calling_pending_functors ≡ true) × Unit {ℓ}

  abbrev all : Thread Functor → List Functor
  all s = s.called ++ (s.batch ++ s.loop.pending_functors)

  record Moves (fs : List Functor) (s t : Thread Functor) : Type ℓ where
    pub fits : Fits t.phase t
    pub order : all t ≡ all s ++ fs

  nothing : (s : Thread Functor) → Fits s.phase s → Moves [] s s
  nothing s h = record { fits = h; order = sym (append-nil (all s)) }

  -- A push puts its functor behind all the others.
  push-order :
      (f : Functor) (s : Thread Functor)
      → s.called ++ (s.batch ++ (s.loop.pending_functors ++ (f ∷ []))) ≡ all s ++ (f ∷ [])
  push-order f s =
      ap (◌++◌ s.called) (sym (append_assoc s.batch s.loop.pending_functors (f ∷ [])))
      ∙ sym (append_assoc s.called (s.batch ++ s.loop.pending_functors) (f ∷ []))

  other_pushes-Moves :
      (f : Functor) (s : Thread Functor)
      → Fits s.phase s
      → Moves (f ∷ []) s (step (other_pushes f) s)
  unfolding step push_functor
  other_pushes-Moves f s h = record { fits = go s.phase h; order = push-order f s }
    where
      go : (ph : Phase) → Fits ph s → Fits ph (step (other_pushes f) s)
      go polling h = (h.0, inr (inr (omega arith)))
      go handling h = h
      go handling_pushed h = h
      go calling h = (h.0, inr (inr (omega arith)))
      go calling_pushed h = h

  -- The wake-up after a push changes no functor.
  other_wakes-Moves : (s : Thread Functor) → Fits s.phase s → Moves [] s (step other_wakes s)
  unfolding step wake_after
  other_wakes-Moves s h =
      if_cases (λ (t : Thread Functor). Moves [] s t) (s.waking == 0) (nothing s h)
        (record { fits = go s.phase h; order = sym (append-nil (all s)) })
    where
      go :
          (ph : Phase)
          → Fits ph s
          → Fits ph (record s { loop = wake_after false s.loop; waking = s.waking - 1 })
      go polling h = (h.0, inr (inl (omega arith)))
      go handling h = h
      go handling_pushed h = h
      go calling h = (h.0, inr (inl (omega arith)))
      go calling_pushed h = h

  still : (s : Thread Functor) (ph : Phase) → s.phase ≡ ph → Fits ph s → Moves [] s s
  still s ph p h = nothing s (subst (λ q. Fits q s) (sym p) h)

  own_pushes-Moves :
      (f : Functor) (s : Thread Functor) (ph : Phase) (fs : List Functor)
      → s.phase ≡ ph
      → Fits ph s
      → Moves (own_news ph f) s (own_step ph fs (own_pushes f) s)
  unfolding push_functor
  own_pushes-Moves f s polling fs p h = still s polling p h
  own_pushes-Moves f s handling fs p h = record { fits = h; order = push-order f s }
  own_pushes-Moves f s handling_pushed fs p h = still s handling_pushed p h
  own_pushes-Moves f s calling fs p h = record { fits = (h.0, tt); order = push-order f s }
  own_pushes-Moves f s calling_pushed fs p h = still s calling_pushed p h

  -- While the functors are called, the thread of the loop wakes itself.
  own_wakes-Woken :
      (l : EventLoop Functor)
      → l.calling_pending_functors ≡ true
      → ((wake_after true l).calling_pending_functors ≡ true) × (zero < (wake_after true l).wakeups)
  unfolding wake_after
  own_wakes-Woken l h = rw h (refl, omega arith)

  wake_after-pending :
      (b : Bool) (l : EventLoop Functor) → (wake_after b l).pending_functors ≡ l.pending_functors
  unfolding wake_after
  wake_after-pending b l =
      if_cases (λ (m : EventLoop Functor). m.pending_functors ≡ l.pending_functors)
        (not b || l.calling_pending_functors) refl refl

  wake_after-order :
      (s : Thread Functor)
      → s.called ++ (s.batch ++ (wake_after true s.loop).pending_functors) ≡ all s ++ []
  wake_after-order s =
      ap (λ (p : List Functor). s.called ++ (s.batch ++ p)) (wake_after-pending true s.loop)
      ∙ sym (append-nil (all s))

  own_wakes-Moves :
      (s : Thread Functor) (ph : Phase) (fs : List Functor)
      → s.phase ≡ ph
      → Fits ph s
      → Moves [] s (own_step ph fs own_wakes s)
  own_wakes-Moves s polling fs p h = still s polling p h
  own_wakes-Moves s handling fs p h = still s handling p h
  own_wakes-Moves s handling_pushed fs p h = record { fits = h; order = wake_after-order s }
  own_wakes-Moves s calling [] p h = still s calling p h
  own_wakes-Moves s calling (f ∷ fs) p h = still s calling p h
  own_wakes-Moves s calling_pushed fs p h =
      let (flag, awake) = own_wakes-Woken s.loop h.0 in
      record { fits = (flag, inr (inl awake)); order = wake_after-order s }

  abbrev Turn : Event Functor → Type 0
  Turn (own_pushes f) = ⊥
  Turn (other_pushes f) = ⊥
  Turn own_wakes = ⊥
  Turn other_wakes = ⊥
  Turn _ = Unit {0}

  -- The loop's own events queue nothing.
  Turn-Moves :
      (e : Event Functor) (s : Thread Functor) (ph : Phase) (fs : List Functor)
      → s.phase ≡ ph
      → s.batch ≡ fs
      → Fits ph s
      → Turn e
      → Moves [] s (own_step ph fs e s)
  unfolding handle_read swap_functors end_functors
  Turn-Moves polls s polling fs p b h t = record {
    fits = (h.0, h.0);
    order = sym (append-nil (all s));
  }
  Turn-Moves polls s handling fs p b h t = still s handling p h
  Turn-Moves polls s handling_pushed fs p b h t = still s handling_pushed p h
  Turn-Moves polls s calling_pushed fs p b h t = still s calling_pushed p h
  Turn-Moves polls s calling [] p b h t = still s calling p h
  Turn-Moves polls s calling (f ∷ fs) p b h t = still s calling p h
  Turn-Moves reads_wakeup s polling fs p b h t = still s polling p h
  Turn-Moves reads_wakeup s handling fs p b h t = record {
    fits = subst (λ q. Fits q (record s { loop = handle_read s.loop })) (sym p) h;
    order = sym (append-nil (all s));
  }
  Turn-Moves reads_wakeup s handling_pushed fs p b h t = still s handling_pushed p h
  Turn-Moves reads_wakeup s calling_pushed fs p b h t = still s calling_pushed p h
  Turn-Moves reads_wakeup s calling [] p b h t = still s calling p h
  Turn-Moves reads_wakeup s calling (f ∷ fs) p b h t = still s calling p h
  Turn-Moves swaps s polling fs p b h t = still s polling p h
  Turn-Moves swaps s handling fs p b h t = record {
    fits = (refl, inl refl);
    order =
        ap (◌++◌ s.called) (
          append-nil s.loop.pending_functors
          ∙ ap (λ (x : List Functor). x ++ s.loop.pending_functors) (sym h.0))
        ∙ sym (append-nil (all s));
  }
  Turn-Moves swaps s handling_pushed fs p b h t = still s handling_pushed p h
  Turn-Moves swaps s calling_pushed fs p b h t = still s calling_pushed p h
  Turn-Moves swaps s calling [] p b h t = still s calling p h
  Turn-Moves swaps s calling (f ∷ fs) p b h t = still s calling p h
  Turn-Moves calls_next s polling fs p b h t = still s polling p h
  Turn-Moves calls_next s handling fs p b h t = still s handling p h
  Turn-Moves calls_next s handling_pushed fs p b h t = still s handling_pushed p h
  Turn-Moves calls_next s calling_pushed fs p b h t = still s calling_pushed p h
  Turn-Moves calls_next s calling [] p b h t = still s calling p h
  Turn-Moves calls_next s calling (f ∷ fs) p b h t = record {
    fits = subst (λ q. Fits q (record s { batch = fs; called = s.called ++ (f ∷ []) })) (sym p) h;
    order =
        append_assoc s.called (f ∷ []) (fs ++ s.loop.pending_functors)
        ∙ ap (λ (x : List Functor). s.called ++ (x ++ s.loop.pending_functors)) (sym b)
        ∙ sym (append-nil (all s));
  }
  Turn-Moves ends s polling fs p b h t = still s polling p h
  Turn-Moves ends s handling fs p b h t = still s handling p h
  Turn-Moves ends s handling_pushed fs p b h t = still s handling_pushed p h
  Turn-Moves ends s calling_pushed fs p b h t = still s calling_pushed p h
  Turn-Moves ends s calling [] p b h t = record {
    fits = (b, h.1);
    order = sym (append-nil (all s));
  }
  Turn-Moves ends s calling (f ∷ fs) p b h t = still s calling p h
  Turn-Moves (own_pushes f) s ph fs p b h t = absurd t
  Turn-Moves (other_pushes f) s ph fs p b h t = absurd t
  Turn-Moves own_wakes s ph fs p b h t = absurd t
  Turn-Moves other_wakes s ph fs p b h t = absurd t

  step-Moves :
      (e : Event Functor) (s : Thread Functor)
      → Fits s.phase s
      → Moves (news e s.phase) s (step e s)
  unfolding step
  step-Moves (other_pushes f) s h = other_pushes-Moves f s h
  step-Moves other_wakes s h = other_wakes-Moves s h
  step-Moves (own_pushes f) s h = own_pushes-Moves f s s.phase s.batch refl h
  step-Moves own_wakes s h = own_wakes-Moves s s.phase s.batch refl h
  step-Moves polls s h = Turn-Moves polls s s.phase s.batch refl refl h tt
  step-Moves reads_wakeup s h = Turn-Moves reads_wakeup s s.phase s.batch refl refl h tt
  step-Moves swaps s h = Turn-Moves swaps s s.phase s.batch refl refl h tt
  step-Moves calls_next s h = Turn-Moves calls_next s s.phase s.batch refl refl h tt
  step-Moves ends s h = Turn-Moves ends s s.phase s.batch refl refl h tt

  run_lem :
      (es : List (Event Functor)) (s : Thread Functor)
      → Fits s.phase s
      → Fits (run es s).phase (run es s) × (all (run es s) ≡ all s ++ queued es s)
  unfolding run queued
  run_lem [] s h = (h, sym (append-nil (all s)))
  run_lem (e ∷ es) s h =
      let m = step-Moves e s h in
      let (f, o) = run_lem es (step e s) m.fits in
      (
        f,
        o
            ∙ ap (λ (x : List Functor). x ++ queued es (step e s)) m.order
            ∙ append_assoc (all s) (news e s.phase) (queued es (step e s)),
      )

  -- In every interleaving of the loop with other threads the functors called, then those of this
  -- round, then those pending, are all that were pushed, in order, each exactly once.
  pub called_in_order :
      (es : List (Event Functor))
      → let s = run es start in s.called ++ (s.batch ++ s.loop.pending_functors) ≡ queued es start
  unfolding start init
  called_in_order es = (run_lem es start (refl, inl refl)).1

  -- In every interleaving, also between the push of a functor and the wake-up after it: while the loop
  -- polls, no functor is pending, or the event descriptor has been written and not read, or a thread
  -- that has pushed its functor has still to write to it. No wake-up is lost.
  pub run-Woken :
      (es : List (Event Functor)) → (run es start).phase ≡ polling → Woken (run es start)
  unfolding start init
  run-Woken es p = (subst (λ q. Fits q (run es start)) p (run_lem es start (refl, inl refl)).0).1
