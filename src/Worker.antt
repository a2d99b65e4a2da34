-- ===== src/Worker.antt =====
-- internal/worker: the executor of jobs, the processor that runs them, and the reconciler.
pub mod Backoff
pub mod Executor
pub mod Processor
pub mod Reconciler
