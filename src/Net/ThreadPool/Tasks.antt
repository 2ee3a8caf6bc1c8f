-- ===== src/Net/ThreadPool/Tasks.antt =====
-- The tasks of src/net/thread_pool.cpp in every interleaving of its threads.
use rpc_framework.Base.{
  ℕ, zero, ◌+◌, ◌-◌, ◌<◌, ◌≡◌, refl, sym, ap, ◌∙◌, inl, inr, Bool, true, false, List, [], ◌∷◌, ◌++◌,
  Option, none, some, ◌==◌, if◌then◌else◌, arith, append_assoc, append-nil, Bool-cases,
}
use rpc_framework.Net.ThreadPool.{
  ThreadPool, init, submit, take_front, stop_pool, worker_turn, task_done,
}

module _ {ℓ} (Task : Type ℓ) where
  -- What a thread does: any thread submits, the owner stops, a worker gets the lock or its task ends.
  pub data Event : Type ℓ where
    submits : Task → Event
    stops gets_lock ends_task : Event

module _ {ℓ} {Task : Type ℓ} where
  -- A submission that throws leaves the pool as it is; a worker that is not there does nothing.
  abbrev kept : ThreadPool Task → Option (ThreadPool Task) → ThreadPool Task
  kept p none = p
  kept p (some q) = q

  unfoldable pub step : Event Task → ThreadPool Task → ThreadPool Task
  step (submits t) p = kept p (submit t p)
  step stops p = stop_pool p
  step gets_lock p = if p.waiting == 0 then p else worker_turn p
  step ends_task p = if p.running == 0 then p else task_done p

  unfoldable pub run : List (Event Task) → ThreadPool Task → ThreadPool Task
  run [] p = p
  run (e ∷ es) p = run es (step e p)

  abbrev stopped_after : Event Task → Bool → Bool
  stopped_after stops b = true
  stopped_after _ b = b

  -- The tasks of the submissions before the first stop.
  abbrev pub accepted : List (Event Task) → Bool → List Task
  accepted [] stop = []
  accepted (submits t ∷ es) stop = if stop then accepted es stop else t ∷ accepted es stop
  accepted (e ∷ es) stop = accepted es (stopped_after e stop)

  -- Once a worker has ended, the pool is stopped and nothing is queued.
  pub record IsValid (p : ThreadPool Task) : Type ℓ where
    pub drained : zero < p.ended → (p.stop ≡ true) × (p.tasks ≡ [])

  -- What one event does to the tasks and to the numbers of workers.
  record Moves (e : Event Task) (p q : ThreadPool Task) : Type ℓ where
    pub is_valid : IsValid q
    pub order : q.started ++ q.tasks ≡ (p.started ++ p.tasks) ++ accepted (e ∷ []) p.stop
    pub stop_kept : q.stop ≡ stopped_after e p.stop
    pub workers : q.waiting + q.running + q.ended ≡ p.waiting + p.running + p.ended

  no_move :
      (e : Event Task) (p : ThreadPool Task)
      → IsValid p
      → accepted (e ∷ []) p.stop ≡ []
      → stopped_after e p.stop ≡ p.stop
      → Moves e p p
  no_move e p v none_new same = record {
    is_valid = v;
    order = sym (ap (◌++◌ (p.started ++ p.tasks)) none_new ∙ append-nil _);
    stop_kept = sym same;
    workers = refl;
  }

  take_front-Moves :
      (ts : List Task) (p : ThreadPool Task)
      → p.tasks ≡ ts
      → IsValid p
      → zero < p.waiting
      → Moves gets_lock p (take_front ts p)
  take_front-Moves (t ∷ ts) p e v w = record {
    is_valid = record { drained = λ l. absurd (let no = (v.drained l).1 in cc) };
    order = append_assoc p.started (t ∷ []) ts ∙ ap (◌++◌ p.started) (sym e) ∙ sym (append-nil _);
    stop_kept = refl;
    workers = omega arith;
  }
  take_front-Moves [] p e v w = go p.stop refl
    where
      go :
          (b : Bool)
          → p.stop ≡ b
          → Moves gets_lock p
              (if b then record p { waiting = p.waiting - 1; ended = p.ended + 1 } else p)
      go false s = no_move gets_lock p v refl refl
      go true s = record {
        is_valid = record { drained = λ l. (s, e) };
        order = sym (append-nil _);
        stop_kept = refl;
        workers = omega arith;
      }

  step-Moves : (e : Event Task) (p : ThreadPool Task) → IsValid p → Moves e p (step e p)
  unfolding step submit stop_pool worker_turn task_done
  step-Moves (submits t) p v = go p.stop refl
    where
      go :
          (b : Bool)
          → p.stop ≡ b
          → Moves
              (submits t)
              p
              (kept p (if b then none else some (record p { tasks = p.tasks ++ (t ∷ []) })))
      go true s = no_move (submits t) p v (rw s refl) refl
      go false s = record {
        is_valid = record { drained = λ l. absurd (let no = (v.drained l).0 in cc) };
        order =
            sym (append_assoc p.started p.tasks (t ∷ []))
            ∙ ap (λ (b : Bool). (p.started ++ p.tasks) ++ (if b then [] else t ∷ [])) (sym s);
        stop_kept = refl;
        workers = refl;
      }
  step-Moves stops p v = record {
    is_valid = record { drained = λ l. (refl, (v.drained l).1) };
    order = sym (append-nil _);
    stop_kept = refl;
    workers = refl;
  }
  step-Moves gets_lock p v = elim (Bool-cases (p.waiting == 0)) [
    | inl z ↦ rw z (no_move gets_lock p v refl refl)
    | inr w ↦ rw w (take_front-Moves p.tasks p refl v (ground arith))
  ]
  step-Moves ends_task p v = elim (Bool-cases (p.running == 0)) [
    | inl z ↦ rw z (no_move ends_task p v refl refl)
    | inr w ↦ rw w (record {
      is_valid = record { drained = v.drained };
      order = sym (append-nil _);
      stop_kept = refl;
      workers = ground arith;
    })
  ]

  accepted-cons :
      (e : Event Task) (es : List (Event Task)) (b : Bool)
      → accepted (e ∷ es) b ≡ accepted (e ∷ []) b ++ accepted es (stopped_after e b)
  accepted-cons (submits t) es true = refl
  accepted-cons (submits t) es false = refl
  accepted-cons stops es b = refl
  accepted-cons gets_lock es b = refl
  accepted-cons ends_task es b = refl

  run_lem :
      (es : List (Event Task)) (p : ThreadPool Task)
      → IsValid p
      → let q = run es p in
        IsValid q
        × (q.started ++ q.tasks ≡ (p.started ++ p.tasks) ++ accepted es p.stop)
        × (q.waiting + q.running + q.ended ≡ p.waiting + p.running + p.ended)
  unfolding run
  run_lem [] p v = (v, sym (append-nil _), refl)
  run_lem (e ∷ es) p v =
      let m = step-Moves e p v in
      let (w, o, n) = run_lem es (step e p) m.is_valid in
      (
        w,
        o
            ∙ ap (λ (b : Bool). ((step e p).started ++ (step e p).tasks) ++ accepted es b)
                m.stop_kept
            ∙ ap (λ (ts : List Task). ts ++ accepted es (stopped_after e p.stop)) m.order
            ∙ append_assoc (p.started ++ p.tasks) _ _
            ∙ ap (◌++◌ (p.started ++ p.tasks)) (sym (accepted-cons e es p.stop)),
        n ∙ m.workers,
      )

  init-IsValid : (n : ℕ) → IsValid (init n)
  unfolding init
  init-IsValid n = record { drained = λ l. absurd (omega arith) }

  -- In every interleaving the tasks that have begun, followed by those that are queued, are the
  -- submitted ones in order, each exactly once; a submission after the stop throws and counts for
  -- nothing.
  pub tasks_run_order :
      (n : ℕ) (es : List (Event Task))
      → let q = run es (init n) in q.started ++ q.tasks ≡ accepted es false
  unfolding init
  tasks_run_order n es = (run_lem es (init n) (init-IsValid n)).1

  -- When every worker has ended, which is what the destructor waits for, every accepted task has been
  -- run, in order, and none runs any more. The pool has a worker.
  pub run_drained :
      (n : ℕ) (es : List (Event Task))
      → zero < n
      → let q = run es (init n) in q.ended ≡ n → (q.started ≡ accepted es false) × (q.running ≡ 0)
  unfolding init
  run_drained n es some_worker all_ended =
      let (v, o, w) = run_lem es (init n) (init-IsValid n) in
      let empty = (v.drained (omega arith)).1 in
      (sym (append-nil _) ∙ ap (◌++◌ (run es (init n)).started) (sym empty) ∙ o, omega arith)
