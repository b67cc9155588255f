-- ===== src/Worker/Tick/Length/Attempts.antt =====
-- The statements of `executeJob`, seven at most.
use job_scheduler.Prelude.{
  ℕ, ◌+◌, ◌≤◌, ◌≡◌, refl, String, Option, none, some, List, ℤ, pos, leb_ℤ, arith, Distinct-update,
  ◌==◌,
}
use job_scheduler.Json.{Json}
use job_scheduler.Db.{Job, Queue}
use job_scheduler.Db.Sql.{World, statement, ◌>>◌}
use job_scheduler.Db.Ensures.{Ensures, Ensures-bind, Ensures-if, Ensures-lift}
use job_scheduler.Worker.Execute.{
  update_job, start_job, complete_job, bury_job, requeue_job, insert_execution, finish_execution,
  insert_log, insert_dead_letter, run_payload, parse_payload, settle_failure, settle, attempt_job,
  execute_job, stopwatch,
}
use job_scheduler.Worker.Tick.Length.{Sent, IsTame, Sent-mono, sends, idle-IsTame}

update-IsTame :
    (id : ℕ) (f : ℕ → Job → Job)
    → ((now : ℕ) (j : Job) → (f now j).id ≡ j.id)
    → IsTame (update_job id f)
unfolding update_job
update-IsTame id f same = record {
  queues = λ m db. refl;
  statements = λ m db. refl;
  jobs = λ m db d. Distinct-update (λ j. j.id) (λ j. j.id == id) (f m.now) db.jobs (same m.now) d;
}

execution-IsTame : (id worker_id attempt : ℕ) → IsTame (insert_execution id worker_id attempt)
unfolding insert_execution
execution-IsTame id worker_id attempt =
    idle-IsTame (insert_execution id worker_id attempt) (λ m db. refl) (λ m db. refl) (λ m db. refl)

finish-IsTame :
    (id : ℕ) (status : String) (duration : ℤ) (error : Option String)
    → IsTame (finish_execution id status duration error)
unfolding finish_execution
finish-IsTame id status duration error =
    idle-IsTame (finish_execution id status duration error) (λ m db. refl) (λ m db. refl)
      (λ m db. refl)

log-IsTame : (id : ℕ) (level message : String) → IsTame (insert_log id level message)
unfolding insert_log
log-IsTame id level message =
    idle-IsTame (insert_log id level message) (λ m db. refl) (λ m db. refl) (λ m db. refl)

letter-IsTame :
    (job : Job) (payload : Json) (reason : String) (attempt : ℕ)
    → IsTame (insert_dead_letter job payload reason attempt)
unfolding insert_dead_letter
letter-IsTame job payload reason attempt =
    idle-IsTame (insert_dead_letter job payload reason attempt) (λ m db. refl) (λ m db. refl)
      (λ m db. refl)

-- The statements of one attempt: three before the payload's work, and four at most behind it.
module _ (w : World) (queues : List Queue) (total : ℕ) (job : Job) where
  settle_failure-sends :
      (payload : Json) (attempt : ℕ) (message : String) (n : ℕ)
      → n + 2 ≤ total
      → Ensures
          (Sent queues total)
          (Sent queues n)
          (settle_failure w job payload attempt message)
          (λ _. Sent queues (n + 2))
  unfolding settle_failure
  settle_failure-sends payload attempt message n h =
      Ensures-if (leb_ℤ job.max_attempts (pos attempt))
        (Ensures-bind _ _
          (sends queues total w _ n (n + 1)
            (update-IsTame job.id (bury_job message) (λ now j. refl)) (omega arith) (omega arith))
          (λ _.
            sends queues total w _ (n + 1) (n + 2) (letter-IsTame job payload message attempt)
              (omega arith) (omega arith)))
        (sends queues total w _ n (n + 2)
          (update-IsTame job.id (requeue_job message) (λ now j. refl)) (omega arith) (omega arith))

  closing-sends :
      (run_id : ℕ) (status : String) (duration : ℤ) (error : Option String) (level message : String)
      (n k : ℕ)
      → n + 2 ≤ k
      → k ≤ total
      → Ensures
          (Sent queues total)
          (Sent queues n)
          (statement w (finish_execution run_id status duration error)
            >> statement w (insert_log job.id level message))
          (λ _. Sent queues k)
  closing-sends run_id status duration error level message n k h le =
      Ensures-bind _ _
        (sends queues total w _ n (n + 1) (finish-IsTame run_id status duration error) (omega arith)
          (omega arith))
        (λ _. sends queues total w _ (n + 1) k (log-IsTame job.id level message) (omega arith) le)

  settle-sends :
      (payload : Json) (attempt run_id : ℕ) (duration : ℤ) (outcome : Option String) (n k : ℕ)
      → n + 4 ≤ k
      → k ≤ total
      → Ensures
          (Sent queues total)
          (Sent queues n)
          (settle w job payload attempt run_id duration outcome)
          (λ _. Sent queues k)
  unfolding settle
  settle-sends payload attempt run_id duration none n k h le =
      Ensures-bind _ _
        (sends queues total w _ n (n + 1) (update-IsTame job.id complete_job (λ now j. refl))
          (omega arith) (omega arith))
        (λ _.
          closing-sends run_id "completed" duration none "info" "Job completed" (n + 1) k
            (omega arith) le)
  settle-sends payload attempt run_id duration (some message) n k h le =
      Ensures-bind _ _ (settle_failure-sends payload attempt message n (omega arith)) (λ _.
        closing-sends run_id "failed" duration (some message) "error" message (n + 2) k
          (omega arith) le)

  attempt_job-sends :
      (worker_id n k : ℕ) (payload : Json)
      → n + 7 ≤ k
      → k ≤ total
      → Ensures
          (Sent queues total)
          (Sent queues n)
          (attempt_job w job worker_id payload)
          (λ _. Sent queues k)
  unfolding attempt_job
  attempt_job-sends worker_id n k payload h le =
      let attempt = job.attempts + 1 in
      Ensures-bind _ _
        (sends queues total w _ n (n + 1) (update-IsTame job.id (start_job attempt) (λ now j. refl))
          (omega arith) (omega arith))
        λ _.
          Ensures-bind _ _
            (sends queues total w _ (n + 1) (n + 2) (execution-IsTame job.id worker_id attempt)
              (omega arith) (omega arith))
            λ run_id.
              Ensures-bind _ _
                (sends queues total w _ (n + 2) (n + 3) (log-IsTame job.id "info" "Job started")
                  (omega arith) (omega arith))
                λ _.
                  Ensures-bind (stopwatch w) _ (record { at = λ db s. s })
                    λ duration.
                      settle-sends payload attempt run_id duration (run_payload w.js payload)
                        (n + 3) k (omega arith) le

  pub execute_job-sends :
      (worker_id n k : ℕ)
      → n + 7 ≤ k
      → k ≤ total
      → Ensures
          (Sent queues total)
          (Sent queues n)
          (execute_job w job worker_id)
          (λ _. Sent queues k)
  unfolding execute_job
  execute_job-sends worker_id n k h le =
      Ensures-bind _ _
        (Ensures-lift (parse_payload w.js job.payload)
          (λ db s. Sent-mono queues n total db (omega arith) s) (λ _ db s. s))
        (λ payload. attempt_job-sends worker_id n k payload h le)
