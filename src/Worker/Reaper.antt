-- ===== src/Worker/Reaper.antt =====
-- `reaper` of dashboard/src/server/worker.ts: jobs whose lease ran out go back to their queue.
pub mod Recovery
use job_scheduler.Prelude.{ℕ, Bool, false, ◌&&◌, none, some, List, ltb, update}
use job_scheduler.Db.{Job, queued, is_in_flight}
use job_scheduler.Db.Sql.{World, ok, Query, Action, statement}

-- The tables are replaced one at a time.
abbrev pub set_jobs : (List Job → List Job) → Query (Unit {0})
set_jobs f m db = (ok tt, record db { jobs = f db.jobs })

-- `status IN ('claimed', 'running') AND lease_expires_at < NOW()`; NULL < NOW() is not true.
unfoldable pub is_stale : ℕ → Job → Bool
is_stale now j =
    is_in_flight j.status && elim j.lease_expires_at [ none ↦ false | some lease ↦ ltb lease now ]

unfoldable pub reclaim : ℕ → Job → Job
reclaim now j = record j {
  status = queued;
  worker_id = none;
  claimed_at = none;
  lease_expires_at = none;
  updated_at = now;
}

unfoldable pub reaper : World → Action (Unit {0})
unfolding is_stale reclaim
reaper w = statement w (λ m. set_jobs (update (is_stale m.now) (reclaim m.now)) m)
