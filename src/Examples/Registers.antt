-- ===== src/Examples/Registers.antt =====
-- The worker's first registration.
use job_scheduler.Prelude.{◌≤◌, max, refl, count}
use job_scheduler.Worker.Registration.{ensure_worker}
use job_scheduler.Worker.Registration.Alive.{
  Registers, is_ours, ensure_worker_alive, ensure_worker_once,
}
use job_scheduler.Samples.{calm, busy}

ensure_worker_alive_example : Registers calm 0 (ensure_worker calm busy)
ensure_worker_alive_example = ensure_worker_alive calm busy (refl, (refl, (refl, tt))) tt

ensure_worker_once_example : count is_ours (ensure_worker calm busy).1.workers ≤ max 1 0
ensure_worker_once_example = ensure_worker_once calm busy
