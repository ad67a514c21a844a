-- ===== src/Concurrency.antt =====
-- d4np/concurrency: the thread pool.
pub mod ThreadPool
