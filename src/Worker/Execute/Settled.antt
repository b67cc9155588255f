-- ===== src/Worker/Execute/Settled.antt =====
-- How an attempt ends for the job: completed, back in its queue, or dead.
use job_scheduler.Prelude.{
  ℕ, suc, ◌+◌, ◌*◌, ◌≡◌, ◌≢◌, refl, sym, ap, ◌∙◌, subst, inl, inr, String, Option, none, some, List,
  [], ◌∷◌, ◌++◌, arith, ℤ, pos, ◌≤ℤ◌, select_one, update, ◌==◌, Option-cases,
  select_one-update_self, select_one-update_ne,
}
use job_scheduler.Json.{Json}
use job_scheduler.Db.{Db, Job, DeadLetter, queued, completed, dead_letter}
use job_scheduler.Db.Sql.{World, Moment, moment, sent, Result, ok}
use job_scheduler.Db.Served.{ServedFrom}
use job_scheduler.Worker.Execute.{
  update_job, start_job, complete_job, bury_job, requeue_job, insert_execution, finish_execution,
  insert_log, insert_dead_letter, parse_payload, run_payload, settle, execute_job, buries,
  new_dead_letter,
}
use job_scheduler.Worker.Execute.Outcome.{
  job_at, after, started, settled_ok, noted, buried, execute-started, settle-completes,
  settle-requeues, settle-buries,
}

-- Two updates of one job, seen from its row and from any other.
twice_at :
    (id : ℕ) (f g : Job → Job) (jobs : List Job) {row : Job}
    → ((j : Job) → (f j).id ≡ j.id)
    → ((j : Job) → (g j).id ≡ j.id)
    → job_at id jobs ≡ some row
    → job_at id (update (λ j. j.id == id) g (update (λ j. j.id == id) f jobs)) ≡ some (g (f row))
twice_at id f g jobs sf sg e =
    select_one-update_self (λ j. j.id) g sg id (update (λ j. j.id == id) f jobs)
      (select_one-update_self (λ j. j.id) f sf id jobs e)

twice_elsewhere :
    (id k : ℕ) (f g : Job → Job) (jobs : List Job)
    → ((j : Job) → (f j).id ≡ j.id)
    → ((j : Job) → (g j).id ≡ j.id)
    → k ≢ id
    → job_at k (update (λ j. j.id == id) g (update (λ j. j.id == id) f jobs)) ≡ job_at k jobs
twice_elsewhere id k f g jobs sf sg n =
    select_one-update_ne (λ j. j.id) g sg id k (update (λ j. j.id == id) f jobs) n
    ∙ select_one-update_ne (λ j. j.id) f sf id k jobs n

-- The attempt returned; the job's row is as given; every other job is as it was.
pub record Settles (id : ℕ) (row : Job) (before : List Job) (answer : Result (Unit {0}) × Db)
    : Type 0 where
  pub returned : answer.0 ≡ ok tt
  pub settled : job_at id answer.1.jobs ≡ some row
  pub others : (k : ℕ) → k ≢ id → job_at k answer.1.jobs ≡ job_at k before

-- The dead letter that the job had, or else a new one about this attempt.
pub data HasDeadLetter (job : Job) (payload : Json) (reason : String)
    (letters before : List DeadLetter) : Type 0 where
  had :
      (d : DeadLetter)
      → select_one (buries job.id) before ≡ some d
      → letters ≡ before
      → HasDeadLetter job payload reason letters before
  written :
      (d : DeadLetter)
      → select_one (buries job.id) before ≡ none
      → letters ≡ before ++ d ∷ []
      → d.job_id ≡ job.id
      → d.original_queue_id ≡ job.queue_id
      → d.payload ≡ payload
      → d.reason ≡ some reason
      → d.attempts_made ≡ job.attempts + 1
      → HasDeadLetter job payload reason letters before

letters :
    (job : Job) (payload : Json) (reason : String) (m : Moment) (db : Db)
    → HasDeadLetter job payload reason
        (insert_dead_letter job payload reason (job.attempts + 1) m db).1.dead_letters
        db.dead_letters
unfolding insert_dead_letter
letters job payload reason m db = elim (Option-cases (select_one (buries job.id) db.dead_letters)) [
  | inl e ↦
      written (new_dead_letter job payload reason (job.attempts + 1) m) e
        (rw (e, insert_dead_letter) refl) refl refl refl refl refl
  | inr (d, e) ↦ had d e (rw (e, insert_dead_letter) refl)
]

module _ (w : World) (job : Job) (worker_id : ℕ) (db : Db) (payload : Json) (row : Job)
    (parsed : parse_payload w.js job.payload ≡ ok payload)
    (listed : job_at job.id db.jobs ≡ some row) where
  -- The number of the execution's row, and the time that it took.
  abbrev execution : ℕ
  execution = w.uuid (suc db.statements)

  abbrev duration : ℤ
  duration = w.stopwatch (suc (suc (suc db.statements)))

  outcome_of :
      {outcome : Option String}
      → ServedFrom w db.statements 3
      → run_payload w.js payload ≡ outcome
      → execute_job w job worker_id db
        ≡ settle w job payload
            (job.attempts + 1)
            execution
            duration
            outcome
            (started w job worker_id db)
  outcome_of s e =
      execute-started w job worker_id db payload parsed s
      ∙ ap
          (λ o.
            settle w job payload (job.attempts + 1) execution duration o
              (started w job worker_id db))
          e

  -- The row of the job, once it is settled.
  settles :
      (g : Job → Job)
      → ((j : Job) → (g j).id ≡ j.id)
      → (after : Db)
      → after.jobs
        ≡ update
            (λ j. j.id == job.id)
            g
            (update
              (λ j. j.id == job.id)
              (start_job (job.attempts + 1) (w.clock db.statements))
              db.jobs)
      → Settles job.id
          (g (start_job (job.attempts + 1) (w.clock db.statements) row))
          db.jobs
          (ok tt, after)
  settles g same after e =
      let start = start_job (job.attempts + 1) (w.clock db.statements) in
      record {
        returned = refl;
        settled = rw e (twice_at job.id start g db.jobs (λ j. refl) same listed);
        others = λ k n. rw e (twice_elsewhere job.id k start g db.jobs (λ j. refl) same n);
      }

  -- If the payload parses and succeeds, the job is in the table, and the six statements of the
  -- attempt are served, the attempt completes the job: it counts the attempt, gives up worker and
  -- lease and clears the error; no other job and no dead letter changes.
  pub execute_completes :
      ServedFrom w db.statements 6
      → run_payload w.js payload ≡ none
      → let now = w.clock (suc (suc (suc db.statements))) in
        Settles job.id
          (record row {
            status = completed;
            attempts = job.attempts + 1;
            completed_at = some now;
            worker_id = none;
            lease_expires_at = none;
            error_message = none;
            updated_at = now;
          })
          db.jobs
          (execute_job w job worker_id db)
        × ((execute_job w job worker_id db).1.dead_letters ≡ db.dead_letters)
  unfolding update_job insert_execution insert_log finish_execution
  execute_completes (s0, (s1, (s2, s))) good =
      let begun = started w job worker_id db in
      let now = w.clock (suc (suc (suc db.statements))) in
      subst
        (λ (r : Result (Unit {0}) × Db).
          Settles job.id
            (complete_job now (start_job (job.attempts + 1) (w.clock db.statements) row)) db.jobs r
          × (r.1.dead_letters ≡ db.dead_letters))
        (sym (
          outcome_of (s0, (s1, (s2, tt))) good
          ∙ settle-completes w job worker_id payload execution duration begun s))
        (
          settles (complete_job now) (λ j. refl)
              (settled_ok w job worker_id payload execution duration begun) refl,
          refl,
        )

  -- If the payload parses and fails before the last attempt, the job is in the table, and the six
  -- statements of the attempt are served, the job goes back to its queue, due in five seconds whatever
  -- retry policy its row names, with the attempt counted and the message kept; no other job and no
  -- dead letter changes.
  pub execute_requeues :
      (message : String)
      → ServedFrom w db.statements 6
      → run_payload w.js payload ≡ some message
      → ¬ (job.max_attempts ≤ℤ pos (job.attempts + 1))
      → let now = w.clock (suc (suc (suc db.statements))) in
        Settles job.id
          (record row {
            status = queued;
            attempts = job.attempts + 1;
            failed_at = some now;
            error_message = some message;
            worker_id = none;
            claimed_at = none;
            lease_expires_at = none;
            next_run_at = some (now + 5 * 1000);
            updated_at = now;
          })
          db.jobs
          (execute_job w job worker_id db)
        × ((execute_job w job worker_id db).1.dead_letters ≡ db.dead_letters)
  unfolding update_job insert_execution insert_log finish_execution
  execute_requeues message (s0, (s1, (s2, s))) bad more =
      let begun = started w job worker_id db in
      let now = w.clock (suc (suc (suc db.statements))) in
      subst
        (λ (r : Result (Unit {0}) × Db).
          Settles job.id
            (requeue_job message now (start_job (job.attempts + 1) (w.clock db.statements) row))
            db.jobs r
          × (r.1.dead_letters ≡ db.dead_letters))
        (sym (
          outcome_of (s0, (s1, (s2, tt))) bad
          ∙ settle-requeues w job worker_id payload execution duration message begun (ground arith)
              s))
        (
          settles (requeue_job message now) (λ j. refl)
              (noted w job worker_id payload execution duration message
                (after w (update_job job.id (requeue_job message)) begun))
              refl,
          refl,
        )

  -- If the payload parses and fails at the last attempt or past it, the job is in the table, and the
  -- seven statements of the attempt are served, the job is dead: it keeps the message, has no worker
  -- and no lease, and has a dead letter, the one that it had or else a new one with the reason and
  -- the number of attempts; no other job changes.
  pub execute_buries :
      (message : String)
      → ServedFrom w db.statements 7
      → run_payload w.js payload ≡ some message
      → job.max_attempts ≤ℤ pos (job.attempts + 1)
      → let now = w.clock (suc (suc (suc db.statements))) in
        Settles job.id
          (record row {
            status = dead_letter;
            attempts = job.attempts + 1;
            failed_at = some now;
            error_message = some message;
            worker_id = none;
            lease_expires_at = none;
            updated_at = now;
          })
          db.jobs
          (execute_job w job worker_id db)
        × HasDeadLetter job payload message
            (execute_job w job worker_id db).1.dead_letters
            db.dead_letters
  unfolding update_job insert_execution insert_log finish_execution insert_dead_letter
  execute_buries message (s0, (s1, (s2, s))) bad enough =
      let begun = started w job worker_id db in
      let now = w.clock (suc (suc (suc db.statements))) in
      subst
        (λ (r : Result (Unit {0}) × Db).
          Settles job.id
            (bury_job message now (start_job (job.attempts + 1) (w.clock db.statements) row))
            db.jobs r
          × HasDeadLetter job payload message r.1.dead_letters db.dead_letters)
        (sym (
          outcome_of (s0, (s1, (s2, tt))) bad
          ∙ settle-buries w job worker_id payload execution duration message begun (ground arith)
              s))
        (
          settles (bury_job message now) (λ j. refl)
              (noted w job worker_id payload execution duration message
                (buried w job worker_id payload execution duration message begun))
              refl,
          letters job payload message
              (moment w (after w (update_job job.id (bury_job message)) begun))
              (sent (after w (update_job job.id (bury_job message)) begun)),
        )
