-- ===== src/Concurrency.antt =====
-- include/dpc/concurrency/BoundedQueue.hpp and src/concurrency/ThreadPool.cpp. Each critical section is
-- one step; a wait on a condition variable is a step that is not enabled.
pub mod Queue
pub mod Pool
