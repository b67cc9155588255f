-- ===== src/Worker/Tick.antt =====
-- `runWorkerTick` of dashboard/src/server/worker.ts.
pub mod Soundness
pub mod Refinement
pub mod Length
use job_scheduler.Prelude.{ℕ, suc, not, List, [], ◌∷◌, ◌==◌, if◌then◌else◌, select}
use job_scheduler.Db.{Job, Queue}
use job_scheduler.Db.Sql.{World, ok, Query, Action, statement, pure, ◌>>=◌, ◌>>◌}
use job_scheduler.Worker.Registration.{ensure_worker}
use job_scheduler.Worker.Reaper.{reaper}
use job_scheduler.Worker.Claim.{select_budget, claim}
use job_scheduler.Worker.Execute.{execute_job}

-- `SELECT id FROM queues WHERE paused = FALSE`
abbrev pub select_unpaused : Query (List Queue)
select_unpaused m db = (ok (select (λ q. not q.paused) db.queues), db)

-- The inner loop, with the count so far.
unfoldable pub execute_all : World → ℕ → ℕ → List Job → Action ℕ
execute_all w worker_id processed [] = pure processed
execute_all w worker_id processed (job ∷ jobs) = do
  execute_job w job worker_id
  execute_all w worker_id (suc processed) jobs

-- `if (budget <= 0) continue;`, the claim and the inner loop.
unfoldable pub claim_and_execute : World → ℕ → ℕ → Queue → ℕ → Action ℕ
unfolding execute_all
claim_and_execute w worker_id processed q budget =
    if budget == 0
    then pure processed
    else (statement w (claim worker_id q.id budget) >>= execute_all w worker_id processed)

-- The body of the outer loop.
unfoldable pub run_queue : World → ℕ → ℕ → Queue → Action ℕ
unfolding claim_and_execute
run_queue w worker_id processed q = do
  budget ← statement w (select_budget q.id)
  claim_and_execute w worker_id processed q budget

unfoldable pub run_queues : World → ℕ → ℕ → List Queue → Action ℕ
unfolding run_queue
run_queues w worker_id processed [] = pure processed
run_queues w worker_id processed (q ∷ qs) = do
  processed' ← run_queue w worker_id processed q
  run_queues w worker_id processed' qs

-- The answer's `processed`; its `worker` is always WORKER_NAME.
unfoldable pub run_worker_tick : World → Action ℕ
unfolding run_queues
run_worker_tick w = do
  reaper w
  worker_id ← ensure_worker w
  queues ← statement w select_unpaused
  run_queues w worker_id 0 queues
