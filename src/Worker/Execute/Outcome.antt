-- ===== src/Worker/Execute/Outcome.antt =====
-- What an attempt leaves behind when its statements are served: the job's row, its execution, its
-- dead letter.
use job_scheduler.Prelude.{
  ℕ, suc, ◌+◌, ◌≡◌, ap, ◌∙◌, String, true, false, Option, none, some, List, ℤ, pos, leb_ℤ,
  select_one, ◌==◌,
}
use job_scheduler.Json.{Json}
use job_scheduler.Db.{Db, Job}
use job_scheduler.Db.Sql.{Action, World, moment, sent, Result, ok, Query, statement, and_then, ◌>>◌}
use job_scheduler.Db.Served.{statement_served, served-bind, ServedFrom}
use job_scheduler.Worker.Execute.{
  update_job, start_job, complete_job, bury_job, requeue_job, insert_execution, finish_execution,
  insert_log, insert_dead_letter, parse_payload, run_payload, settle_failure, settle, attempt_job,
  execute_job,
}

abbrev pub job_at : ℕ → List Job → Option Job
job_at id = select_one (λ j. j.id == id)

-- The database after a served statement.
abbrev pub after : {A : Type 0} → World → Query A → Db → Db
after w query db = (query (moment w db) (sent db)).1

module _ (w : World) (job : Job) (worker_id : ℕ) where
  abbrev pub attempt : ℕ
  attempt = job.attempts + 1

  -- After the row of the job is started, its execution opened and the start logged.
  abbrev pub started : Db → Db
  started db = after w (insert_log job.id "info" "Job started") (
      after w (insert_execution job.id worker_id attempt)
        (after w (update_job job.id (start_job attempt)) db))

  -- The prefix of an attempt.
  attempt-started :
      (db : Db) (payload : Json)
      → ServedFrom w db.statements 3
      → attempt_job w job worker_id payload db
        ≡ settle w job payload attempt
            (w.uuid (suc db.statements))
            (w.stopwatch (suc (suc (suc db.statements))))
            (run_payload w.js payload)
            (started db)
  unfolding attempt_job update_job insert_execution insert_log
  attempt-started db payload (s0, (s1, (s2, _))) =
      let first = after w (update_job job.id (start_job attempt)) db in
      let second = after w (insert_execution job.id worker_id attempt) first in
      served-bind w (update_job job.id (start_job attempt)) _ db s0
      ∙ served-bind w (insert_execution job.id worker_id attempt) _ first s1
      ∙ served-bind w (insert_log job.id "info" "Job started") _ second s2

  pub execute-started :
      (db : Db) (payload : Json)
      → parse_payload w.js job.payload ≡ ok payload
      → ServedFrom w db.statements 3
      → execute_job w job worker_id db
        ≡ settle w job payload attempt
            (w.uuid (suc db.statements))
            (w.stopwatch (suc (suc (suc db.statements))))
            (run_payload w.js payload)
            (started db)
  unfolding execute_job
  execute-started db payload e s =
      ap (λ r. and_then r (attempt_job w job worker_id) db) e ∙ attempt-started db payload s

  module _ (payload : Json) (execution : ℕ) (duration : ℤ) where
    abbrev pub settled_ok : Db → Db
    settled_ok db = after w (insert_log job.id "info" "Job completed") (
        after w (finish_execution execution "completed" duration none)
          (after w (update_job job.id complete_job) db))

    pub settle-completes :
        (db : Db)
        → ServedFrom w db.statements 3
        → settle w job payload attempt execution duration none db ≡ (ok tt, settled_ok db)
    unfolding settle update_job finish_execution insert_log
    settle-completes db (s0, (s1, (s2, _))) =
        let first = after w (update_job job.id complete_job) db in
        let second = after w (finish_execution execution "completed" duration none) first in
        served-bind w (update_job job.id complete_job) _ db s0
        ∙ served-bind w (finish_execution execution "completed" duration none) _ first s1
        ∙ statement_served w (insert_log job.id "info" "Job completed") second s2

    -- What follows a failure, once the job is settled.
    abbrev pub noted : String → Db → Db
    noted message db =
        after w (insert_log job.id "error" message)
          (after w (finish_execution execution "failed" duration (some message)) db)

    note_failure :
        (message : String) (db : Db)
        → ServedFrom w db.statements 2
        → (statement w (finish_execution execution "failed" duration (some message))
              >> statement w (insert_log job.id "error" message))
            db
          ≡ (ok tt, noted message db)
    unfolding finish_execution insert_log
    note_failure message db (s0, (s1, _)) =
        served-bind w (finish_execution execution "failed" duration (some message)) _ db s0
        ∙ statement_served w (insert_log job.id "error" message)
            (after w (finish_execution execution "failed" duration (some message)) db) s1

    pub settle-requeues :
        (message : String) (db : Db)
        → leb_ℤ job.max_attempts (pos attempt) ≡ false
        → ServedFrom w db.statements 3
        → settle w job payload attempt execution duration (some message) db
          ≡ (ok tt, noted message (after w (update_job job.id (requeue_job message)) db))
    unfolding settle settle_failure update_job
    settle-requeues message db more (s0, s) =
        rw (more, settle)
          (served-bind w (update_job job.id (requeue_job message)) _ db s0
            ∙ note_failure message (after w (update_job job.id (requeue_job message)) db) s)

    abbrev pub buried : String → Db → Db
    buried message db =
        after w (insert_dead_letter job payload message attempt)
          (after w (update_job job.id (bury_job message)) db)

    bury-steps :
        (message : String) (db : Db)
        → leb_ℤ job.max_attempts (pos attempt) ≡ true
        → ServedFrom w db.statements 2
        → settle_failure w job payload attempt message db ≡ (ok tt, buried message db)
    unfolding settle_failure update_job insert_dead_letter
    bury-steps message db enough (s0, (s1, _)) =
        let first = after w (update_job job.id (bury_job message)) db in
        rw (enough, settle_failure)
          (served-bind w (update_job job.id (bury_job message)) _ db s0
            ∙ statement_served w (insert_dead_letter job payload message attempt) first s1)

    pub settle-buries :
        (message : String) (db : Db)
        → leb_ℤ job.max_attempts (pos attempt) ≡ true
        → ServedFrom w db.statements 4
        → settle w job payload attempt execution duration (some message) db
          ≡ (ok tt, noted message (buried message db))
    unfolding settle update_job insert_dead_letter
    settle-buries message db enough (s0, (s1, s)) =
        let note : Action (Unit {0}) =
          statement w (finish_execution execution "failed" duration (some message))
          >> statement w (insert_log job.id "error" message) in
        ap (λ (r : Result (Unit {0}) × Db). and_then r.0 (λ _. note) r.1)
          (bury-steps message db enough (s0, (s1, tt)))
        ∙ note_failure message (buried message db) s
