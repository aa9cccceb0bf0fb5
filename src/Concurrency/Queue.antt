-- ===== src/Concurrency/Queue.antt =====
-- include/dpc/concurrency/BoundedQueue.hpp.
use cpp_data_protection_core.Base.{
  ℕ, ◌==◌, ltb, Bool, true, false, ◌||◌, not, none, some, Option, List, [], ◌∷◌, ◌++◌, length, null,
  if◌then◌else◌,
}

pub record BoundedQueue (A : Type 0) : Type 0 where
  pub capacity : ℕ
  pub items : List A
  pub stopped : Bool

module _ {A : Type 0} where
  -- The constructor.
  unfoldable pub bounded_queue : ℕ → BoundedQueue A
  bounded_queue capacity = record {
    capacity = if capacity == 0 then 1 else capacity;
    items = [];
    stopped = false;
  }

  -- `push` for what the two parts of its condition give.
  unfoldable pub push_at : Bool → Bool → A → BoundedQueue A → Option (Bool × BoundedQueue A)
  push_at stopped room value q =
      if not (stopped || room)
      then none
      else if stopped
      then some (false, q)
      else some (true, record q { items = q.items ++ value ∷ [] })

  -- What `push` returns and leaves, or nothing while it waits.
  unfoldable pub push : A → BoundedQueue A → Option (Bool × BoundedQueue A)
  unfolding push_at
  push value q = push_at q.stopped (ltb (length q.items) q.capacity) value q

  -- Behind the wait of `pop`.
  abbrev pub take_front : List A → BoundedQueue A → Option A × BoundedQueue A
  take_front [] q = (none, q)
  take_front (value ∷ rest) q = (some value, record q { items = rest })

  unfoldable pub pop_at : Bool → List A → BoundedQueue A → Option (Option A × BoundedQueue A)
  pop_at stopped items q =
      if not (stopped || not (null items)) then none else some (take_front items q)

  -- What `pop` gives and leaves, or nothing while it waits.
  unfoldable pub pop : BoundedQueue A → Option (Option A × BoundedQueue A)
  unfolding pop_at
  pop q = pop_at q.stopped q.items q

  unfoldable pub shutdown : BoundedQueue A → BoundedQueue A
  shutdown q = record q { stopped = true }

  unfoldable pub size : BoundedQueue A → ℕ
  size q = length q.items
