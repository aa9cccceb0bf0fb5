-- ===== src/Concurrency/Pool/Drain.antt =====
-- After `shutdown` the workers empty the queue and leave their loops, so that `join` returns.
use cpp_data_protection_core.Base.{
  ℕ, zero, suc, ◌+◌, ◌*◌, ◌<◌, ◌≡◌, ◌⊎◌, refl, ap, sym, ◌∙◌, arith, Bool, true, inl, inr, some,
  List, [], ◌∷◌, ◌++◌, append-nil, length, All,
}
use cpp_data_protection_core.Concurrency.Queue.{BoundedQueue, take_front, pop_at, pop}
use cpp_data_protection_core.Concurrency.Pool.{
  Worker, popping, finished, running, Pool, thread_pool, WorkerStep, popped, ran, Run,
}
use cpp_data_protection_core.Concurrency.Pool.Invariant.{
  Drained, IsPool, pop_at-cases, IsPool-WorkerStep, Run-IsPool,
}

module _ {A : Type 0} where
  -- The steps that a worker has left, but for the tasks of the queue.
  unfoldable pub steps_left : List (Worker A) → ℕ
  steps_left [] = 0
  steps_left (finished ∷ ws) = steps_left ws
  steps_left (popping ∷ ws) = 1 + steps_left ws
  steps_left (running task ∷ ws) = 2 + steps_left ws

  unfoldable pub measure : Pool A → ℕ
  unfolding steps_left
  measure p = 2 * length p.queue.items + steps_left p.workers

  steps_left-append :
      (before after : List (Worker A))
      → steps_left (before ++ after) ≡ steps_left before + steps_left after
  unfolding steps_left
  steps_left-append [] after = omega arith
  steps_left-append (finished ∷ before) after = omega (arith, steps_left-append before after)
  steps_left-append (popping ∷ before) after = omega (arith, steps_left-append before after)
  steps_left-append (running task ∷ before) after = omega (arith, steps_left-append before after)

  measure-WorkerStep : (p q : Pool A) → WorkerStep p q → measure q < measure p
  unfolding measure pop steps_left
  measure-WorkerStep p _ (ran before after task q w d) =
      rw (d, w)
        (omega (
          arith,
          steps_left-append before (popping ∷ after),
          steps_left-append before (running task ∷ after),
        ))
  measure-WorkerStep p _ (popped before after got q w e d) =
      elim (pop_at-cases p.queue.stopped p.queue.items p.queue got e) [
        | inl (empty, shut, r) ↦
            rw (d, r, w)
              (omega (
                arith,
                steps_left-append before (finished ∷ after),
                steps_left-append before (popping ∷ after),
              ))
        | inr (task, rest, more, r) ↦
            rw (d, r, w)
              (omega (
                arith,
                ap length more,
                steps_left-append before (running task ∷ after),
                steps_left-append before (popping ∷ after),
              ))
      ]

  abbrev pub IsFinished : Worker A → Type 0
  IsFinished finished = Unit
  IsFinished popping = ⊥
  IsFinished (running task) = ⊥

  -- Whatever the workers do, they go on until the pool has the property.
  pub data Inevitably (P : Pool A → Type 0) : Pool A → Type 0 where
    now : (p : Pool A) → P p → Inevitably P p
    later :
        (p q : Pool A)
        → WorkerStep p q
        → ((r : Pool A) → WorkerStep p r → Inevitably P r)
        → Inevitably P p

  -- A worker that has not left its loop, and those around it.
  record Busy (ws : List (Worker A)) : Type 0 where
    before : List (Worker A)
    worker : Worker A
    after : List (Worker A)
    is : ws ≡ before ++ worker ∷ after
    busy : (worker ≡ popping) ⊎ ((task : A) × (worker ≡ running task))

  find-Busy : (ws : List (Worker A)) → All IsFinished ws ⊎ Busy ws
  find-Busy [] = inl tt
  find-Busy (popping ∷ ws) =
      inr (record { before = []; worker = popping; after = ws; is = refl; busy = inl refl })
  find-Busy (running task ∷ ws) = inr (record {
    before = [];
    worker = running task;
    after = ws;
    is = refl;
    busy = inr (task, refl);
  })
  find-Busy (finished ∷ ws) = elim (find-Busy ws) [
    | inl h ↦ inl (tt, h)
    | inr b ↦ inr (record {
      before = finished ∷ b.before;
      worker = b.worker;
      after = b.after;
      is = ap (λ (t : List (Worker A)). finished ∷ t) b.is;
      busy = b.busy;
    })
  ]

  pop-stopped : (q : BoundedQueue A) → q.stopped ≡ true → pop q ≡ some (take_front q.items q)
  unfolding pop pop_at
  pop-stopped q e = ap (λ (b : Bool). pop_at b q.items q) e

  -- Behind `shutdown` no worker waits.
  progress :
      (p : Pool A)
      → p.queue.stopped ≡ true
      → All IsFinished p.workers ⊎ ((q : Pool A) × WorkerStep p q)
  progress p s = elim (find-Busy p.workers) [
    | inl h ↦ inl h
    | inr b ↦ elim b.busy [
      | inl e ↦ inr (_, popped b.before b.after _ _ (rw e at b.is) (pop-stopped p.queue s) refl)
      | inr (task, e) ↦ inr (_, ran b.before b.after task _ (rw e at b.is) refl)
    ]
  ]

  -- A pool that is shutting down, with the tasks that it has accepted.
  record IsDraining (accepted : List A) (p : Pool A) : Type 0 where
    pool : IsPool p
    shut : p.queue.stopped ≡ true
    same : p.accepted ≡ accepted

  -- All workers have left, and every accepted task was begun, in order.
  pub record IsDone (accepted : List A) (p : Pool A) : Type 0 where
    pub workers_done : All IsFinished p.workers
    pub queue_empty : p.queue.items ≡ []
    pub all_begun : p.begun ≡ accepted

  IsDraining-WorkerStep :
      (accepted : List A) (p q : Pool A)
      → WorkerStep p q
      → IsDraining accepted p
      → IsDraining accepted q
  unfolding pop
  IsDraining-WorkerStep accepted p _ (ran before after task q w d) h = record {
    pool = IsPool-WorkerStep p q (ran before after task q w d) h.pool;
    shut = rw d h.shut;
    same = rw d h.same;
  }
  IsDraining-WorkerStep accepted p _ (popped before after got q w e d) h =
      let pool : IsPool q = IsPool-WorkerStep p q (popped before after got q w e d) h.pool in
      elim (pop_at-cases p.queue.stopped p.queue.items p.queue got e) [
        | inl (empty, shut, r) ↦ record {
          pool = pool;
          shut = rw (d, r) h.shut;
          same = rw (d, r) h.same;
        }
        | inr (task, rest, more, r) ↦ record {
          pool = pool;
          shut = rw (d, r) h.shut;
          same = rw (d, r) h.same;
        }
      ]

  nothing_left :
      (q : BoundedQueue A) (ws : List (Worker A))
      → 0 < length ws
      → All IsFinished ws
      → All (Drained q) ws
      → q.items ≡ []
  nothing_left q [] l f h = absurd (omega arith)
  nothing_left q (finished ∷ ws) l f h = h.0.0
  nothing_left q (popping ∷ ws) l f h = absurd f.0
  nothing_left q (running task ∷ ws) l f h = absurd f.0

  IsDraining-IsDone :
      (accepted : List A) (p : Pool A)
      → All IsFinished p.workers
      → IsDraining accepted p
      → IsDone accepted p
  IsDraining-IsDone accepted p f h =
      let empty : p.queue.items ≡ [] =
        nothing_left p.queue p.workers h.pool.some_worker f h.pool.drained in
      record {
        workers_done = f;
        queue_empty = empty;
        all_begun = sym (sym h.same ∙ (h.pool.in_order ∙ rw empty (append-nil p.begun)));
      }

  drain :
      (fuel : ℕ) (accepted : List A) (p : Pool A)
      → measure p < fuel
      → IsDraining accepted p
      → Inevitably (IsDone accepted) p
  drain zero accepted p l h = absurd (omega arith)
  drain (suc fuel) accepted p l h = elim (progress p h.shut) [
    | inl f ↦ now p (IsDraining-IsDone accepted p f h)
    | inr (q, s) ↦ later p q s (λ r t.
        drain fuel accepted r (omega (arith, measure-WorkerStep p r t))
          (IsDraining-WorkerStep accepted p r t h))
  ]

  -- From any state that a pool reaches in which the queue is shut down, whatever steps the workers
  -- take they can always go on until all have left their loops, and then the queue is empty and
  -- the tasks that were begun are exactly those that were accepted, in order.
  pub shutdown_drains :
      (workers queue_capacity : ℕ) (p : Pool A)
      → Run (thread_pool workers queue_capacity) p
      → p.queue.stopped ≡ true
      → Inevitably (IsDone p.accepted) p
  shutdown_drains workers queue_capacity p r s =
      drain (suc (measure p)) p.accepted p (omega arith)
        (record { pool = Run-IsPool workers queue_capacity p r; shut = s; same = refl })
