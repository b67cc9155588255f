-- ===== src/Worker/Tick/Soundness.antt =====
-- A tick keeps the tables sound at every point where it can stop.
use job_scheduler.Prelude.{
  ℕ, suc, ◌≡◌, ◌≢◌, refl, false, List, [], ◌∷◌, arith, All, Distinct, contains, ◌==◌,
}
use job_scheduler.Db.{Db, Job, Queue}
use job_scheduler.Db.Sql.{World, statement}
use job_scheduler.Db.Ensures.{
  Ensures, Ensures-keeps, Ensures-bind, Ensures-pure, Ensures-if, Ensures-after,
}
use job_scheduler.Worker.Invariant.{IsSound, IsSoundHeld}
use job_scheduler.Worker.Reaper.Recovery.{reaper-IsSound}
use job_scheduler.Worker.Registration.Soundness.{ensure_worker-IsSound}
use job_scheduler.Worker.Claim.{select_budget, select_budget-same}
use job_scheduler.Worker.Claim.Chosen.{ids}
use job_scheduler.Worker.Claim.Soundness.{IsHeldBatch, claim-IsHeldBatch}
use job_scheduler.Worker.Execute.Soundness.{execute_job-IsSound}
use job_scheduler.Worker.Tick.{select_unpaused, execute_all, run_queue, run_queues, run_worker_tick}

ids_absent : (k : ℕ) (js : List Job) → All (λ j. j.id ≢ k) js → contains (ids js) k ≡ false
ids_absent k [] a = refl
ids_absent k (j ∷ js) a = ground (arith, ids_absent k js a.1)

execute_all-IsSound :
    (w : World) (worker_id processed : ℕ) (jobs : List Job)
    → Distinct (λ j. j.id) jobs
    → Ensures IsSound
        (IsSoundHeld (ids jobs))
        (execute_all w worker_id processed jobs)
        (λ _. IsSound)
unfolding execute_all
execute_all-IsSound w worker_id processed [] d = Ensures-pure processed (λ db s. s)
execute_all-IsSound w worker_id processed (job ∷ jobs) d =
    Ensures-bind _ _ (execute_job-IsSound w job worker_id (ids jobs) (ids_absent job.id jobs d.0))
      (λ _. execute_all-IsSound w worker_id (suc processed) jobs d.1)

batch-IsSound :
    (w : World) (worker_id processed : ℕ) (jobs : List Job)
    → Ensures IsSound (IsHeldBatch jobs) (execute_all w worker_id processed jobs) (λ _. IsSound)
batch-IsSound w worker_id processed jobs = record {
  at = λ db h. (execute_all-IsSound w worker_id processed jobs h.different).at db h.sound;
}

select_budget-IsSound :
    (w : World) (queue_id : ℕ)
    → Ensures IsSound IsSound (statement w (select_budget queue_id)) (λ _. IsSound)
select_budget-IsSound w queue_id =
    Ensures-keeps w (select_budget queue_id) (λ db s. s)
      (λ m db s. rw (select_budget-same queue_id m db) s)

run_queue-IsSound :
    (w : World) (worker_id processed : ℕ) (q : Queue)
    → Ensures IsSound IsSound (run_queue w worker_id processed q) (λ _. IsSound)
unfolding run_queue
run_queue-IsSound w worker_id processed q =
    Ensures-bind _ _ (select_budget-IsSound w q.id) λ budget.
      Ensures-if (budget == 0) (Ensures-pure processed (λ db s. s)) (
        Ensures-bind _ _ (claim-IsHeldBatch w worker_id q.id budget)
          (batch-IsSound w worker_id processed))

run_queues-IsSound :
    (w : World) (worker_id processed : ℕ) (qs : List Queue)
    → Ensures IsSound IsSound (run_queues w worker_id processed qs) (λ _. IsSound)
unfolding run_queues
run_queues-IsSound w worker_id processed [] = Ensures-pure processed (λ db s. s)
run_queues-IsSound w worker_id processed (q ∷ qs) =
    Ensures-bind _ _ (run_queue-IsSound w worker_id processed q)
      (λ processed'. run_queues-IsSound w worker_id processed' qs)

-- Wherever a tick ends, by returning or by a failure of any statement, job ids are still different,
-- each worker has at most one heartbeat and each job at most one dead letter, and a job has a worker
-- and a lease exactly if it is claimed or running.
pub run_worker_tick-IsSound : (w : World) (db : Db) → IsSound db → IsSound (run_worker_tick w db).1
unfolding run_worker_tick
run_worker_tick-IsSound w db s =
    Ensures-after (run_worker_tick w) db
      (Ensures-bind _ _ (reaper-IsSound w) λ _.
        Ensures-bind _ _ (ensure_worker-IsSound w) λ worker_id.
          Ensures-bind _ _ (Ensures-keeps w select_unpaused (λ db' h. h) (λ m db' h. h))
            (run_queues-IsSound w worker_id 0))
      s
