-- ===== src/Worker/Program.antt =====
-- `runWorkerTick` of dashboard/src/server/worker.ts as the sequence of statements that it sends, so
-- that several ticks can run at once: between two statements of one tick the others may send theirs.
-- The functions of the source are written out once more, with the queries of the modules beside.
pub mod Alone
pub mod Owned
pub mod Statements
pub mod Claiming
pub mod Attempting
pub mod Kept
pub mod Stepped
pub mod Interleaved
pub mod Growing
use job_scheduler.Prelude.{
  ℕ, ◌+◌, suc, String, ℤ, pos, leb_ℤ, Option, none, some, List, [], ◌∷◌, ◌==◌, if◌then◌else◌,
  update,
}
use job_scheduler.Json.{Json, Js}
use job_scheduler.Db.{Db, Job, Queue, Worker}
use job_scheduler.Db.Sql.{World, Query, Result, ok, throws, statement}
use job_scheduler.Worker.Registration.{
  select_worker, upsert_heartbeat, activate_worker, insert_worker, insert_heartbeat,
}
use job_scheduler.Worker.Reaper.{set_jobs, is_stale, reclaim}
use job_scheduler.Worker.Claim.{select_budget, claim}
use job_scheduler.Worker.Execute.{
  update_job, start_job, complete_job, bury_job, requeue_job, insert_execution, finish_execution,
  insert_log, insert_dead_letter, run_payload, parse_payload,
}
use job_scheduler.Worker.Tick.{select_unpaused}

-- What is left to do: nothing, an exception, a statement and what follows its answer, or a reading
-- of the stopwatch.
pub data Program (A : Type 0) : Type 1 where
  done : A → Program A
  fails : String → Program A
  query : {B : Type 0} → Query B → (B → Program A) → Program A
  measure : (ℤ → Program A) → Program A

infixl 5 ◌>>=◌ ◌>>◌
abbrev pub ◌>>=◌ : {A B : Type 0} → Program A → (A → Program B) → Program B
done a >>= f = f a
fails s >>= f = fails s
query q k >>= f = query q (λ b. k b >>= f)
measure k >>= f = measure (λ n. k n >>= f)

abbrev pub ◌>>◌ : {A B : Type 0} → Program A → Program B → Program B
m >> n = m >>= λ _. n

abbrev pub ask : {A : Type 0} → Query A → Program A
ask q = query q done

abbrev pub lift : {A : Type 0} → Result A → Program A
lift (ok a) = done a
lift (throws s) = fails s

abbrev pub resume : {A B : Type 0} → (B → Program A) → Result B → Program A
resume k (ok b) = k b
resume k (throws s) = fails s

-- The next statement, as the world serves it.
unfoldable pub step : {A : Type 0} → World → Program A → Db → Program A × Db
step w (done a) db = (done a, db)
step w (fails s) db = (fails s, db)
step w (query q k) db = let (r, after) = statement w q db in (resume k r, after)
step w (measure k) db = (k (w.stopwatch db.statements), db)

-- `reaper`
abbrev pub reap : Query (Unit {0})
reap m = set_jobs (update (is_stale m.now) (reclaim m.now)) m

-- `ensureWorker`, behind its first statement and whole
unfoldable pub registered : Option Worker → Program ℕ
registered (some row) = do ask (upsert_heartbeat row.id); ask (activate_worker row.id); done row.id
registered none = do id ← ask insert_worker; ask (insert_heartbeat id); done id

unfoldable pub registration : Program ℕ
unfolding registered
registration = ask select_worker >>= registered

-- `executeJob`: what is done with a job after a failed attempt, behind the payload's work, and whole
unfoldable pub burial : Job → Json → ℕ → String → Program (Unit {0})
burial job payload attempt message =
    if leb_ℤ job.max_attempts (pos attempt)
    then ask (update_job job.id (bury_job message))
      >> ask (insert_dead_letter job payload message attempt)
    else ask (update_job job.id (requeue_job message))

unfoldable pub settlement : Job → Json → ℕ → ℕ → ℤ → Option String → Program (Unit {0})
unfolding burial
settlement job payload attempt execution duration none = do
  ask (update_job job.id complete_job)
  ask (finish_execution execution "completed" duration none)
  ask (insert_log job.id "info" "Job completed")
settlement job payload attempt execution duration (some message) = do
  burial job payload attempt message
  ask (finish_execution execution "failed" duration (some message))
  ask (insert_log job.id "error" message)

unfoldable pub attempt_at : Js → Job → ℕ → Json → Program (Unit {0})
unfolding settlement
attempt_at js job worker_id payload = do
  let attempt = job.attempts + 1
  ask (update_job job.id (start_job attempt))
  execution ← ask (insert_execution job.id worker_id attempt)
  ask (insert_log job.id "info" "Job started")
  duration ← measure done
  settlement job payload attempt execution duration (run_payload js payload)

unfoldable pub execution : Js → Job → ℕ → Program (Unit {0})
unfolding attempt_at
execution js job worker_id = lift (parse_payload js job.payload) >>= attempt_at js job worker_id

-- The loops of `runWorkerTick` and the whole of it.
unfoldable pub executions : Js → ℕ → ℕ → List Job → Program ℕ
unfolding execution
executions js worker_id processed [] = done processed
executions js worker_id processed (job ∷ jobs) = do
  execution js job worker_id
  executions js worker_id (suc processed) jobs

unfoldable pub batch : Js → ℕ → ℕ → Queue → ℕ → Program ℕ
unfolding executions
batch js worker_id processed q budget =
    if budget == 0
    then done processed
    else (ask (claim worker_id q.id budget) >>= executions js worker_id processed)

unfoldable pub queue_run : Js → ℕ → ℕ → Queue → Program ℕ
unfolding batch
queue_run js worker_id processed q = ask (select_budget q.id) >>= batch js worker_id processed q

unfoldable pub queue_runs : Js → ℕ → ℕ → List Queue → Program ℕ
unfolding queue_run
queue_runs js worker_id processed [] = done processed
queue_runs js worker_id processed (q ∷ qs) = do
  processed' ← queue_run js worker_id processed q
  queue_runs js worker_id processed' qs

unfoldable pub tick : Js → Program ℕ
unfolding queue_runs registration
tick js = do
  ask reap
  worker_id ← registration
  queues ← ask select_unpaused
  queue_runs js worker_id 0 queues
