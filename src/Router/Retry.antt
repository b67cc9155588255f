-- ===== src/Router/Retry.antt =====
-- `POST jobs/:id/retry` of dashboard/src/server/router.ts.
pub mod Reset
use job_scheduler.Prelude.{
  ℕ, String, Bool, not, Option, none, some, ◌==◌, ◌&&◌, select, select_one, update,
}
use job_scheduler.Db.{Db, Job, queued}
use job_scheduler.Db.Client.{Client, is_job_in}
use job_scheduler.Db.Sql.{World, Moment, ok, Query, Action, statement, pure, lift, ◌>>=◌, ◌>>◌}
use job_scheduler.Http.{Response, Body, json, error, map_job}
use job_scheduler.Router.{request_tick}

-- `DELETE FROM dead_letter_queue WHERE job_id = jobId`
unfoldable pub delete_dead_letter : Client → String → Query (Unit {0})
delete_dead_letter c job m = do
  id ← lift (c.uuid_param job)
  λ db. (ok tt, record db { dead_letters = select (λ d. not (d.job_id == id)) db.dead_letters })

unfoldable pub reset : ℕ → Job → Job
reset now j = record j {
  status = queued;
  attempts = 0;
  next_run_at = some now;
  failed_at = none;
  error_message = none;
  worker_id = none;
  claimed_at = none;
  lease_expires_at = none;
  updated_at = now;
}

-- The row of the job as the statement finds it, and so what it returns.
unfoldable pub find_job : ℕ → ℕ → Db → Option Job
unfolding is_job_in
find_job id org_id db = select_one (λ j. (j.id == id) && is_job_in org_id db j) db.jobs

-- RETURNING gives the row as it is after the update.
abbrev pub returned : ℕ → Option Job → Option Job
returned now none = none
returned now (some j) = some (reset now j)

abbrev pub reset_found : ℕ → ℕ → Db → Option Job → Db
reset_found now id db none = db
reset_found now id db (some _) = record db { jobs = update (λ j. j.id == id) (reset now) db.jobs }

-- `UPDATE jobs j SET … FROM queues q JOIN projects p … RETURNING j.*`
unfoldable pub reset_job : Client → String → String → Query (Option Job)
unfolding find_job reset
reset_job c job org m = do
  id ← lift (c.uuid_param job)
  org_id ← lift (c.uuid_param org)
  λ db.
      let found = find_job id org_id db in
      (ok (returned m.now found), reset_found m.now id db found)

abbrev pub answer_retry : World → Option Job → Action Response
answer_retry w none = pure (error "not found" 404 "ERROR")
answer_retry w (some row) = do
  request_tick
  v ← lift (map_job w.js row)
  pure (json (Body.job v) 200)

unfoldable pub retry_job : World → Client → String → String → Action Response
unfolding delete_dead_letter reset_job map_job
retry_job w c org job = do
  statement w (delete_dead_letter c job)
  row ← statement w (reset_job c job org)
  answer_retry w row
