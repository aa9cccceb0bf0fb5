-- ===== src/Concurrency/Pool/Invariant.antt =====
-- What holds of a thread pool whatever the threads do.
use cpp_data_protection_core.Base.{
  ℕ, zero, suc, ◌≤◌, ◌<◌, ◌≡◌, ◌⊎◌, refl, ap, sym, ◌∙◌, arith, Bool, true, false, ◌==◌, inl, inr,
  none, some, Option, List, [], ◌∷◌, ◌++◌, append_assoc, length, length-append, All, if◌then◌else◌,
}
use cpp_data_protection_core.Concurrency.Queue.{
  BoundedQueue, bounded_queue, push_at, push, pop_at, pop, shutdown,
}
use cpp_data_protection_core.Concurrency.Pool.{
  Worker, popping, finished, running, Pool, idle_workers, thread_pool, submit, record_push,
  record_pop, WorkerStep, popped, ran, Step, submitted, pushed, stopping, stopping_queue, worked,
  Run, here, next,
}

module _ {A : Type 0} where
  -- A worker has left its loop only when the queue was shut down and empty.
  abbrev pub Drained : BoundedQueue A → Worker A → Type 0
  Drained q finished = (q.items ≡ []) × (q.stopped ≡ true)
  Drained q popping = Unit
  Drained q (running task) = Unit

  pub record IsPool (p : Pool A) : Type 0 where
    pub some_worker : 0 < length p.workers
    pub positive : 0 < p.queue.capacity
    pub bounded : length p.queue.items ≤ p.queue.capacity
    pub in_order : p.accepted ≡ p.begun ++ p.queue.items
    pub drained : All (Drained p.queue) p.workers

  pub All-replace :
      (P : Worker A → Type 0) (before after : List (Worker A)) (v w : Worker A)
      → P w
      → All P (before ++ v ∷ after)
      → All P (before ++ w ∷ after)
  All-replace P [] after v w k h = (k, h.1)
  All-replace P (u ∷ before) after v w k h = (h.0, All-replace P before after v w k h.1)

  pub All-worker :
      (P Q : Worker A → Type 0) (ws : List (Worker A))
      → ((w : Worker A) → P w → Q w)
      → All P ws
      → All Q ws
  All-worker P Q [] f h = tt
  All-worker P Q (w ∷ ws) f h = (f w h.0, All-worker P Q ws f h.1)

  Drained-open :
      (q r : BoundedQueue A) → q.stopped ≡ false → (w : Worker A) → Drained q w → Drained r w
  Drained-open q r e finished h = cc
  Drained-open q r e popping h = tt
  Drained-open q r e (running task) h = tt

  Drained-more :
      (q r : BoundedQueue A) (task : A) (rest : List A)
      → q.items ≡ task ∷ rest
      → (w : Worker A) → Drained q w
      → Drained r w
  Drained-more q r task rest e finished h = let e' = h.0 in cc
  Drained-more q r task rest e popping h = tt
  Drained-more q r task rest e (running other) h = tt

  Drained-shut : (q : BoundedQueue A) (w : Worker A) → Drained q w → Drained (shutdown q) w
  unfolding shutdown
  Drained-shut q finished h = (h.0, refl)
  Drained-shut q popping h = tt
  Drained-shut q (running task) h = tt

  -- The cases of a push that does not wait.
  push_at-cases :
      (stopped room : Bool) (task : A) (q : BoundedQueue A) (got : Bool × BoundedQueue A)
      → push_at stopped room task q ≡ some got
      → ((got ≡ (true, record q { items = q.items ++ task ∷ [] }))
          × (stopped ≡ false)
          × (room ≡ true))
        ⊎ (got ≡ (false, q))
  unfolding push_at
  push_at-cases true room task q got e = inr (cc e)
  push_at-cases false true task q got e = inl (cc e, refl, refl)
  push_at-cases false false task q got e = cc

  -- The cases of a pop that does not wait.
  pub pop_at-cases :
      (stopped : Bool) (items : List A) (q : BoundedQueue A) (got : Option A × BoundedQueue A)
      → pop_at stopped items q ≡ some got
      → ((items ≡ []) × (stopped ≡ true) × (got ≡ (none, q)))
        ⊎ ((task : A) × (rest : List A) × (items ≡ task ∷ rest)
            × (got ≡ (some task, record q { items = rest })))
  unfolding pop_at
  pop_at-cases true [] q got e = inl (refl, refl, cc e)
  pop_at-cases false [] q got e = cc
  pop_at-cases true (task ∷ rest) q got e = inr (task, rest, refl, cc e)
  pop_at-cases false (task ∷ rest) q got e = inr (task, rest, refl, cc e)

  one_worker : (before after : List (Worker A)) (w : Worker A) → 0 < length (before ++ w ∷ after)
  one_worker before after w = omega (arith, length-append before (w ∷ after))

  IsPool-pushed :
      (p : Pool A) (task : A) (others : List A) (got : Bool × BoundedQueue A)
      → IsPool p
      → push task p.queue ≡ some got
      → IsPool (record_push task others got p)
  unfolding push
  IsPool-pushed p task others got h e = elim (push_at-cases p.queue.stopped _ task p.queue got e) [
    | inr r ↦ rw r (record {
      some_worker = h.some_worker;
      positive = h.positive;
      bounded = h.bounded;
      in_order = h.in_order;
      drained = h.drained;
    })
    | inl (r, open_queue, room) ↦
        let later : BoundedQueue A = record p.queue { items = p.queue.items ++ task ∷ [] } in
        let fits : length p.queue.items < p.queue.capacity = ground arith in
        rw r (record {
          some_worker = h.some_worker;
          positive = h.positive;
          bounded = omega (arith, length-append p.queue.items (task ∷ []));
          in_order = rw h.in_order (append_assoc p.begun p.queue.items (task ∷ []));
          drained =
              All-worker (Drained p.queue) (Drained later) p.workers
                (Drained-open p.queue later open_queue) h.drained;
        })
  ]

  IsPool-popped :
      (p : Pool A) (before after : List (Worker A)) (got : Option A × BoundedQueue A)
      → IsPool p
      → p.workers ≡ before ++ popping ∷ after
      → pop p.queue ≡ some got
      → IsPool (record_pop before after got p)
  unfolding pop
  IsPool-popped p before after got h w e =
      elim (pop_at-cases p.queue.stopped p.queue.items p.queue got e) [
        | inl (empty, shut, r) ↦ rw r (record {
          some_worker = one_worker before after finished;
          positive = h.positive;
          bounded = h.bounded;
          in_order = h.in_order;
          drained =
              All-replace (Drained p.queue) before after popping finished (empty, shut)
                (rw w at h.drained);
        })
        | inr (task, rest, more, r) ↦
            let later : BoundedQueue A = record p.queue { items = rest } in
            rw r (record {
              some_worker = one_worker before after (running task);
              positive = h.positive;
              bounded = omega (arith, h.bounded, ap length more);
              in_order = h.in_order ∙ rw more (sym (append_assoc p.begun (task ∷ []) rest));
              drained = All-replace (Drained later) before after popping (running task) tt (
                  All-worker (Drained p.queue) (Drained later) _
                    (Drained-more p.queue later task rest more) (rw w at h.drained));
            })
      ]

  IsPool-either :
      (b : Bool) (x y : Option Bool × Pool A)
      → IsPool x.1
      → IsPool y.1
      → IsPool (if b then x else y).1
  IsPool-either true x y h k = h
  IsPool-either false x y h k = k

  IsPool-submit : (task : A) (p : Pool A) → IsPool p → IsPool (submit task p).1
  unfolding submit
  IsPool-submit task p h = IsPool-either p.stopped _ _ h (record {
    some_worker = h.some_worker;
    positive = h.positive;
    bounded = h.bounded;
    in_order = h.in_order;
    drained = h.drained;
  })

  IsPool-ran :
      (p : Pool A) (before after : List (Worker A)) (task : A)
      → IsPool p
      → p.workers ≡ before ++ running task ∷ after
      → IsPool (record p { workers = before ++ popping ∷ after })
  IsPool-ran p before after task h w = record {
    some_worker = one_worker before after popping;
    positive = h.positive;
    bounded = h.bounded;
    in_order = h.in_order;
    drained =
        All-replace (Drained p.queue) before after (running task) popping tt (rw w at h.drained);
  }

  IsPool-shutdown : (p : Pool A) → IsPool p → IsPool (record p { queue = shutdown p.queue })
  unfolding shutdown
  IsPool-shutdown p h = record {
    some_worker = h.some_worker;
    positive = h.positive;
    bounded = h.bounded;
    in_order = h.in_order;
    drained =
        All-worker (Drained p.queue) (Drained (shutdown p.queue)) p.workers (Drained-shut p.queue)
          h.drained;
  }

  pub IsPool-WorkerStep : (p q : Pool A) → WorkerStep p q → IsPool p → IsPool q
  IsPool-WorkerStep p _ (popped before after got q w e d) h =
      rw d (IsPool-popped p before after got h w e)
  IsPool-WorkerStep p _ (ran before after task q w d) h = rw d (IsPool-ran p before after task h w)

  IsPool-Step : (p q : Pool A) → Step p q → IsPool p → IsPool q
  IsPool-Step p _ (submitted task q d) h = rw d (IsPool-submit task p h)
  IsPool-Step p _ (pushed before after task got q s e d) h =
      rw d (IsPool-pushed p task (before ++ after) got h e)
  IsPool-Step p _ (stopping q d) h = rw d (record {
    some_worker = h.some_worker;
    positive = h.positive;
    bounded = h.bounded;
    in_order = h.in_order;
    drained = h.drained;
  })
  IsPool-Step p _ (stopping_queue q s d) h = rw d (IsPool-shutdown p h)
  IsPool-Step p _ (worked q w) h = IsPool-WorkerStep p q w h

  idle_workers-Drained : (n : ℕ) (q : BoundedQueue A) → All (Drained q) (idle_workers n)
  unfolding idle_workers
  idle_workers-Drained zero q = tt
  idle_workers-Drained (suc n) q = (tt, idle_workers-Drained n q)

  idle_workers-some : (n : ℕ) (ws : List (Worker A)) → 0 < n → ws ≡ idle_workers n → 0 < length ws
  unfolding idle_workers
  idle_workers-some zero ws h e = absurd (omega arith)
  idle_workers-some (suc n) ws h e = omega (arith, ap length e)

  thread_pool-IsPool : (workers queue_capacity : ℕ) → IsPool (thread_pool workers queue_capacity)
  unfolding thread_pool bounded_queue
  thread_pool-IsPool workers queue_capacity = record {
    some_worker = idle_workers-some (if workers == 0 then 1 else workers) _ (ground arith) refl;
    positive = ground arith;
    bounded = omega arith;
    in_order = refl;
    drained =
        idle_workers-Drained (if workers == 0 then 1 else workers) (bounded_queue queue_capacity);
  }

  -- In every state that a pool reaches, however its threads interleave, there is a worker, the
  -- queue's capacity is positive and bounds its length, the accepted tasks are the tasks begun
  -- followed by those queued, and a worker has finished only if the queue is empty and shut down.
  pub Run-IsPool :
      (workers queue_capacity : ℕ) (p : Pool A)
      → Run (thread_pool workers queue_capacity) p
      → IsPool p
  Run-IsPool workers queue_capacity _ here = thread_pool-IsPool workers queue_capacity
  Run-IsPool workers queue_capacity _ (next q p r s) =
      IsPool-Step q p s (Run-IsPool workers queue_capacity q r)
