-- ===== src/Worker.antt =====
-- dashboard/src/server/worker.ts: one tick of the worker. It gives back the jobs whose lease ran
-- out, registers the worker, and for each queue that is not paused claims due jobs within the
-- queue's concurrency limit and executes them. Each `sql` template is one statement; NOW() is the
-- statement's own time.
pub mod Invariant
pub mod Registration
pub mod Reaper
pub mod Claim
pub mod Execute
pub mod Tick
pub mod Lifecycle
pub mod Program
