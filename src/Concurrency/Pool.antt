-- ===== src/Concurrency/Pool.antt =====
-- src/concurrency/ThreadPool.cpp: the threads that submit, shut down and work, interleaved in any way.
-- Two lists keep the history: the tasks that `push` took, and those that workers have begun.
pub mod Invariant
pub mod Drain
use cpp_data_protection_core.Base.{
  ℕ, zero, suc, ◌==◌, ◌≡◌, Bool, true, false, none, some, Option, List, [], ◌∷◌, ◌++◌,
  if◌then◌else◌,
}
use cpp_data_protection_core.Concurrency.Queue.{BoundedQueue, bounded_queue, push, pop, shutdown}

-- Where a worker is in `workerLoop`: at `pop`, in the task, or behind the loop.
pub data Worker (A : Type 0) : Type 0 where
  popping finished : Worker A
  running : A → Worker A

pub record Pool (A : Type 0) : Type 0 where
  pub queue : BoundedQueue A
  pub stopped : Bool
  pub workers : List (Worker A)
  pub submitting : List A
  pub accepted : List A
  pub begun : List A

module _ {A : Type 0} where
  unfoldable pub idle_workers : ℕ → List (Worker A)
  idle_workers zero = []
  idle_workers (suc n) = popping ∷ idle_workers n

  -- The constructor.
  unfoldable pub thread_pool : ℕ → ℕ → Pool A
  unfolding idle_workers
  thread_pool workers queue_capacity = record {
    queue = bounded_queue queue_capacity;
    stopped = false;
    workers = idle_workers (if workers == 0 then 1 else workers);
    submitting = [];
    accepted = [];
    begun = [];
  }

  -- The first half of `submit`, up to the call of `push`, and what it returns at once.
  unfoldable pub submit : A → Pool A → Option Bool × Pool A
  submit task p =
      if p.stopped then (some false, p) else (none, record p { submitting = task ∷ p.submitting })

  abbrev pub record_push : A → List A → Bool × BoundedQueue A → Pool A → Pool A
  record_push task others (true, q) p = record p {
    queue = q;
    submitting = others;
    accepted = p.accepted ++ task ∷ [];
  }
  record_push task others (false, q) p = record p { queue = q; submitting = others }

  -- What `pop` gave decides whether the worker goes on.
  abbrev pub record_pop :
      List (Worker A) → List (Worker A) → Option A × BoundedQueue A → Pool A → Pool A
  record_pop before after (some task, q) p = record p {
    queue = q;
    workers = before ++ running task ∷ after;
    begun = p.begun ++ task ∷ [];
  }
  record_pop before after (none, q) p = record p { queue = q; workers = before ++ finished ∷ after }

  -- A step of a worker: `pop` returns, or a task does.
  pub data WorkerStep (p : Pool A) : Pool A → Type 0 where
    popped :
        (before after : List (Worker A)) (got : Option A × BoundedQueue A) (q : Pool A)
        → p.workers ≡ before ++ popping ∷ after
        → pop p.queue ≡ some got
        → q ≡ record_pop before after got p
        → WorkerStep p q
    ran :
        (before after : List (Worker A)) (task : A) (q : Pool A)
        → p.workers ≡ before ++ running task ∷ after
        → q ≡ record p { workers = before ++ popping ∷ after }
        → WorkerStep p q

  pub data Step (p : Pool A) : Pool A → Type 0 where
    submitted : (task : A) (q : Pool A) → q ≡ (submit task p).1 → Step p q
    pushed :
        (before after : List A) (task : A) (got : Bool × BoundedQueue A) (q : Pool A)
        → p.submitting ≡ before ++ task ∷ after
        → push task p.queue ≡ some got
        → q ≡ record_push task (before ++ after) got p
        → Step p q
    -- `compare_exchange_strong` of `shutdown`, and then `queue_.shutdown()`
    stopping : (q : Pool A) → q ≡ record p { stopped = true } → Step p q
    stopping_queue :
        (q : Pool A) → p.stopped ≡ true → q ≡ record p { queue = shutdown p.queue } → Step p q
    worked : (q : Pool A) → WorkerStep p q → Step p q

  pub data Run (start : Pool A) : Pool A → Type 0 where
    here : Run start start
    next : (p q : Pool A) → Run start p → Step p q → Run start q
