-- ===== src/Router/Retry/Reset.antt =====
-- What a retry leaves behind.
use job_scheduler.Prelude.{ℕ, suc, ◌≡◌, ◌≢◌, none, String, not, some, ◌==◌, select, update}
use job_scheduler.Db.{Db, Job, queued}
use job_scheduler.Db.Client.{Client}
use job_scheduler.Db.Sql.{Action, World, moment, sent, statement, ◌>>=◌}
use job_scheduler.Http.{Response}
use job_scheduler.Router.Retry.{reset, reset_job, answer_retry}

-- The tables without the dead letter of a job.
abbrev pub without_dead_letter : ℕ → Db → Db
without_dead_letter id db = record db {
  dead_letters = select (λ d. not (d.job_id == id)) db.dead_letters;
}

-- The tables after a served retry.
abbrev pub retried : World → ℕ → Db → Db
retried w id db = record db {
  jobs = update (λ j. j.id == id) (reset (moment w (sent db)).now) db.jobs;
  dead_letters = select (λ d. not (d.job_id == id)) db.dead_letters;
  statements = suc (suc db.statements);
  schedulings = suc db.schedulings;
}

abbrev reset_then_answer : World → Client → String → String → Unit {0} → Action Response
reset_then_answer w c org job _ = statement w (reset_job c job org) >>= answer_retry w

-- A job that starts over: the same work, queued and due at this time, as if it had never run.
pub record IsAfresh (now : ℕ) (x y : Job) : Type 0 where
  pub same_job : y.id ≡ x.id
  pub same_queue : y.queue_id ≡ x.queue_id
  pub same_payload : y.payload ≡ x.payload
  pub same_priority : y.priority ≡ x.priority
  pub same_allowance : y.max_attempts ≡ x.max_attempts
  pub queues : y.status ≡ queued
  pub due : y.next_run_at ≡ some now
  pub no_attempt : y.attempts ≡ 0
  pub no_worker : y.worker_id ≡ none
  pub no_lease : y.lease_expires_at ≡ none
  pub no_failure : (y.failed_at ≡ none) × (y.error_message ≡ none)

-- What becomes of a row when the job with this id is retried.
pub data Retried (now id : ℕ) (x y : Job) : Type 0 where
  afresh : x.id ≡ id → IsAfresh now x y → Retried now id x y
  kept : x.id ≢ id → y ≡ x → Retried now id x y
