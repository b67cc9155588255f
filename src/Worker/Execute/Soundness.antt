-- ===== src/Worker/Execute/Soundness.antt =====
-- An attempt at a job that is in flight keeps the tables sound, whatever fails on the way, and
-- lets go of the job if it returns.
use mathlib.Core.Bool.{false≢true}
use job_scheduler.Prelude.{
  ℕ, ◌+◌, ◌≡◌, refl, sym, ◌∙◌, subst, inl, inr, String, true, false, Option, none, some, List, ◌∷◌,
  arith, ℤ, pos, leb_ℤ, contains, select_one, ◌==◌, eq_of_==, Option-cases, Distinct-append,
  absent_of_select_one,
}
use job_scheduler.Json.{Json}
use job_scheduler.Db.{Db, Job, is_in_flight}
use job_scheduler.Db.Sql.{World, Moment, Query, statement}
use job_scheduler.Db.Ensures.{
  Ensures, Ensures-statement, Ensures-bind, Ensures-lift, Ensures-if, Post,
}
use job_scheduler.Worker.Invariant.{
  IsSoundRow, IsSound, IsSoundHeld, IsSoundHeld-IsSound, update-IsSoundHeld,
}
use job_scheduler.Worker.Execute.{
  update_job, start_job, complete_job, bury_job, requeue_job, insert_execution, finish_execution,
  insert_log, insert_dead_letter, parse_payload, run_payload, settle_failure, settle, execute_job,
  buries, new_dead_letter, stopwatch,
}

-- A query that always answers, and takes tables that are sound with the one list of held jobs to
-- tables that are sound with the other.
abbrev Step : {A : Type 0} → List ℕ → List ℕ → Query A → Type 0
Step held held' query =
    (m : Moment) (db : Db)
    → IsSoundHeld held db
    → Post IsSound (λ _. IsSoundHeld held') (query m db).0 (query m db).1

Ensures-Step :
    {A : Type 0} (w : World) (held held' : List ℕ) (query : Query A)
    → Step held held' query
    → Ensures IsSound (IsSoundHeld held) (statement w query) (λ _. IsSoundHeld held')
Ensures-Step w held held' query step =
    Ensures-statement w query (λ db s. s) (IsSoundHeld-IsSound held)
      (λ _. IsSoundHeld-IsSound held') step

module _ (id : ℕ) (held : List ℕ) where
  start_row :
      (attempt now : ℕ) (j : Job)
      → (j.id == id) ≡ true
      → IsSoundRow (id ∷ held) j
      → IsSoundRow (id ∷ held) (start_job attempt now j)
  start_row attempt now j e r = ground (arith, r.in_flight)

  start-Step : (attempt : ℕ) → Step (id ∷ held) (id ∷ held) (update_job id (start_job attempt))
  unfolding update_job
  start-Step attempt m db s =
      update-IsSoundHeld (id ∷ held) (id ∷ held) (λ j. j.id == id) (start_job attempt m.now) db
        (λ j. refl) (start_row attempt m.now) (λ j _ r. r) s

-- A job that nobody has.
record IsLetGo (f : Job → Job) : Type 0 where
  same_id : (j : Job) → (f j).id ≡ j.id
  no_worker : (j : Job) → (f j).worker_id ≡ none
  no_lease : (j : Job) → (f j).lease_expires_at ≡ none
  idle : (j : Job) → is_in_flight (f j).status ≡ false

module _ (id : ℕ) (held : List ℕ) (new : contains held id ≡ false) where
  let_go_row : (f : Job → Job) → IsLetGo f → (j : Job) → (j.id == id) ≡ true → IsSoundRow held (f j)
  let_go_row f l j e = record {
    worker = rw (l.no_worker j, l.idle j) refl;
    lease = rw (l.no_lease j, l.idle j) refl;
    in_flight = λ c. absurd (
        false≢true
          (sym new ∙ subst (λ k. contains held k ≡ true) (l.same_id j ∙ eq_of_== j.id id e) c));
  }

  tail_row : (j : Job) → IsSoundRow (id ∷ held) j → IsSoundRow held j
  tail_row j r = record {
    worker = r.worker;
    lease = r.lease;
    in_flight = λ c. r.in_flight (ground arith);
  }

  settle-Step :
      (f : ℕ → Job → Job) → ((now : ℕ) → IsLetGo (f now)) → Step (id ∷ held) held (update_job id f)
  unfolding update_job
  settle-Step f l m db s =
      update-IsSoundHeld (id ∷ held) held (λ j. j.id == id) (f m.now) db (l m.now).same_id
        (λ j e _. let_go_row (f m.now) (l m.now) j e) (λ j _ r. tail_row j r) s

complete-IsLetGo : (now : ℕ) → IsLetGo (complete_job now)
complete-IsLetGo now = record {
  same_id = λ j. refl;
  no_worker = λ j. refl;
  no_lease = λ j. refl;
  idle = λ j. refl;
}

bury-IsLetGo : (s : String) (now : ℕ) → IsLetGo (bury_job s now)
bury-IsLetGo s now = record {
  same_id = λ j. refl;
  no_worker = λ j. refl;
  no_lease = λ j. refl;
  idle = λ j. refl;
}

requeue-IsLetGo : (s : String) (now : ℕ) → IsLetGo (requeue_job s now)
requeue-IsLetGo s now = record {
  same_id = λ j. refl;
  no_worker = λ j. refl;
  no_lease = λ j. refl;
  idle = λ j. refl;
}

module _ (held : List ℕ) where
  execution-Step :
      (job_id worker_id attempt : ℕ) → Step held held (insert_execution job_id worker_id attempt)
  unfolding insert_execution
  execution-Step job_id worker_id attempt m db s = s

  finish-Step :
      (id : ℕ) (status : String) (duration : ℤ) (error : Option String)
      → Step held held (finish_execution id status duration error)
  unfolding finish_execution
  finish-Step id status duration error m db s = s

  log-Step : (id : ℕ) (level message : String) → Step held held (insert_log id level message)
  unfolding insert_log
  log-Step id level message m db s = s

  dead_letter-Step :
      (job : Job) (payload : Json) (reason : String) (attempt : ℕ)
      → Step held held (insert_dead_letter job payload reason attempt)
  unfolding insert_dead_letter
  dead_letter-Step job payload reason attempt m db s =
      elim (Option-cases (select_one (buries job.id) db.dead_letters)) [
        | inl e ↦
            rw (e, insert_dead_letter)
              (record {
                job_ids = s.job_ids;
                rows = s.rows;
                one_heartbeat = s.one_heartbeat;
                one_dead_letter =
                    Distinct-append (λ d. d.job_id) (new_dead_letter job payload reason attempt m)
                      db.dead_letters
                      (absent_of_select_one (λ d. d.job_id) job.id db.dead_letters e)
                      s.one_dead_letter;
              })
        | inr (d, e) ↦ rw (e, insert_dead_letter) s
      ]

module _ (w : World) (job : Job) (payload : Json) (held : List ℕ)
    (new : contains held job.id ≡ false) where
  settle_failure-IsSound :
      (attempt : ℕ) (message : String)
      → Ensures IsSound
          (IsSoundHeld (job.id ∷ held))
          (settle_failure w job payload attempt message)
          (λ _. IsSoundHeld held)
  unfolding settle_failure
  settle_failure-IsSound attempt message =
      Ensures-if (leb_ℤ job.max_attempts (pos attempt))
        (Ensures-bind _ _
          (Ensures-Step w _ held _
            (settle-Step job.id held new (bury_job message) (bury-IsLetGo message)))
          (λ _. Ensures-Step w held held _ (dead_letter-Step held job payload message attempt)))
        (Ensures-Step w _ held _
          (settle-Step job.id held new (requeue_job message) (requeue-IsLetGo message)))

  settle-IsSound :
      (attempt execution : ℕ) (duration : ℤ) (outcome : Option String)
      → Ensures IsSound
          (IsSoundHeld (job.id ∷ held))
          (settle w job payload attempt execution duration outcome)
          (λ _. IsSoundHeld held)
  unfolding settle
  settle-IsSound attempt execution duration none =
      Ensures-bind _ _
        (Ensures-Step w _ held _ (settle-Step job.id held new complete_job complete-IsLetGo))
        λ _.
          Ensures-bind _ _ (Ensures-Step w held held _ (finish-Step held execution _ duration none))
            (λ _. Ensures-Step w held held _ (log-Step held job.id _ _))
  settle-IsSound attempt execution duration (some message) =
      Ensures-bind _ _ (settle_failure-IsSound attempt message) λ _.
        Ensures-bind _ _
          (Ensures-Step w held held _ (finish-Step held execution _ duration (some message)))
          (λ _. Ensures-Step w held held _ (log-Step held job.id _ message))

-- An attempt at a job that is in flight keeps the tables sound, whatever fails on the way; if it
-- returns, the job needs no longer be in flight, and the other held jobs still are.
pub execute_job-IsSound :
    (w : World) (job : Job) (worker_id : ℕ) (held : List ℕ)
    → contains held job.id ≡ false
    → Ensures IsSound
        (IsSoundHeld (job.id ∷ held))
        (execute_job w job worker_id)
        (λ _. IsSoundHeld held)
unfolding execute_job
execute_job-IsSound w job worker_id held new =
    let all = job.id ∷ held in
    Ensures-bind _ _
      (Ensures-lift (parse_payload w.js job.payload) (IsSoundHeld-IsSound all) (λ _ db s. s))
      λ payload.
        Ensures-bind _ _ (Ensures-Step w all all _ (start-Step job.id held (job.attempts + 1))) λ _.
          Ensures-bind _ _ (Ensures-Step w all all _ (execution-Step all job.id worker_id _))
            λ execution. Ensures-bind _ _ (Ensures-Step w all all _ (log-Step all job.id _ _)) λ _.
              Ensures-bind (stopwatch w) _ (record { at = λ db s. s })
                λ duration.
                  settle-IsSound w job payload held new (job.attempts + 1) execution duration
                    (run_payload w.js payload)
