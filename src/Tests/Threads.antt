-- ===== src/Tests/Threads.antt =====
-- A pool of one worker that is given a task and shut down.
use cpp_data_protection_core.Base.{ℕ, refl, true, [], ◌∷◌}
use cpp_data_protection_core.Concurrency.Queue.{
  BoundedQueue, bounded_queue, push_at, push, shutdown,
}
use cpp_data_protection_core.Concurrency.Pool.{
  Pool, thread_pool, submit, record_push, submitted, pushed, stopping, stopping_queue, Run, here,
  next,
}
use cpp_data_protection_core.Concurrency.Pool.Invariant.{IsPool, Run-IsPool}
use cpp_data_protection_core.Concurrency.Pool.Drain.{Inevitably, IsDone, shutdown_drains}

abbrev fresh : Pool ℕ
fresh = thread_pool 1 1

abbrev submitting : Pool ℕ
submitting = (submit 7 fresh).1

abbrev pushed_queue : BoundedQueue ℕ
pushed_queue = record (submitting.queue) { items = 7 ∷ [] }

abbrev with_task : Pool ℕ
with_task = record_push 7 [] (true, pushed_queue) submitting

abbrev told : Pool ℕ
told = record with_task { stopped = true }

abbrev shut : Pool ℕ
shut = record told { queue = shutdown told.queue }

shut-Run : Run fresh shut
unfolding submit thread_pool bounded_queue push push_at
shut-Run =
    next told shut
      (next with_task told
        (next submitting with_task (next fresh submitting here (submitted 7 submitting refl))
          (pushed [] [] 7 (true, pushed_queue) with_task refl refl refl))
        (stopping told refl))
      (stopping_queue shut refl refl)

Run-IsPool_example : IsPool shut
Run-IsPool_example = Run-IsPool 1 1 shut shut-Run

shutdown_drains_example : Inevitably (IsDone shut.accepted) shut
shutdown_drains_example = shutdown_drains 1 1 shut shut-Run (unfold shutdown in refl)
