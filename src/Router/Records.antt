-- ===== src/Router/Records.antt =====
-- The listings of executions, logs, workers and dead letters in dashboard/src/server/router.ts.
pub mod Scope
use job_scheduler.Prelude.{
  ℕ, String, Bool, true, false, Option, none, some, List, [], ◌∷◌, map, ◌==◌, ◌&&◌, leb, select,
  select_one, count, take, sort_by,
}
use job_scheduler.Db.{
  Db, Job, Queue, Execution, JobLog, Worker, Heartbeat, DeadLetter, is_in_flight,
}
use job_scheduler.Db.Client.{Client, is_job_in, is_queue_in}
use job_scheduler.Db.Sql.{World, Result, ok, Query, Action, statement, pure, lift, ◌>>=◌}
use job_scheduler.Http.{Response, Body, WorkerInfo, DlqItem, json}

-- `JOIN jobs j ON j.id = job_id`, with the JOINs of the job, `WHERE p.org_id = orgId`.
unfoldable pub is_of_job_in : ℕ → Db → ℕ → Bool
unfolding is_job_in
is_of_job_in org_id db job_id = elim (select_one (λ j. j.id == job_id) db.jobs) [
  | none ↦ false
  | some j ↦ is_job_in org_id db j
]

unfoldable pub comes_before : Execution → Execution → Bool
comes_before a b = leb a.attempt b.attempt

unfoldable pub select_executions : Client → String → String → Query (List Execution)
unfolding is_of_job_in comes_before
select_executions c job org m = do
  id ← lift (c.uuid_param job)
  org_id ← lift (c.uuid_param org)
  λ db. (
    ok (
        sort_by comes_before
          (select (λ e. (e.job_id == id) && is_of_job_in org_id db e.job_id) db.executions)),
    db,
  )

unfoldable pub job_executions : World → Client → String → String → Action Response
unfolding select_executions
job_executions w c org job = do
  rows ← statement w (select_executions c job org)
  pure (json (Body.executions rows) 200)

unfoldable pub is_logged_before : JobLog → JobLog → Bool
is_logged_before a b = leb a.created_at b.created_at

unfoldable pub select_logs : Client → String → String → Query (List JobLog)
unfolding is_of_job_in is_logged_before
select_logs c job org m = do
  id ← lift (c.uuid_param job)
  org_id ← lift (c.uuid_param org)
  λ db. (
    ok (
        sort_by is_logged_before
          (select (λ l. (l.job_id == id) && is_of_job_in org_id db l.job_id) db.logs)),
    db,
  )

unfoldable pub job_logs : World → Client → String → String → Action Response
unfolding select_logs
job_logs w c org job = do
  rows ← statement w (select_logs c job org)
  pure (json (Body.logs rows) 200)

abbrev seen_at : Option Heartbeat → Option ℕ
seen_at none = none
seen_at (some h) = some h.last_seen_at

abbrev is_worked_by : ℕ → Option ℕ → Bool
is_worked_by id none = false
is_worked_by id (some held) = held == id

-- The columns of a worker: `LEFT JOIN worker_heartbeats`, and the count of its jobs in flight.
unfoldable pub worker_info : Db → Worker → WorkerInfo
worker_info db w = record {
  id = w.id;
  name = w.name;
  status = w.status;
  last_seen_at = seen_at (select_one (λ h. h.worker_id == w.id) db.heartbeats);
  jobs_in_flight = count (λ j. is_worked_by w.id j.worker_id && is_in_flight j.status) db.jobs;
  created_at = w.created_at;
  updated_at = w.updated_at;
}

unfoldable pub is_newer_worker : Worker → Worker → Bool
is_newer_worker a b = leb b.created_at a.created_at

unfoldable pub select_workers : Query (List WorkerInfo)
unfolding worker_info is_newer_worker
select_workers m db = (ok (map (worker_info db) (sort_by is_newer_worker db.workers)), db)

unfoldable pub list_workers : World → Action Response
unfolding select_workers
list_workers w = do rows ← statement w select_workers; pure (json (Body.workers rows) 200)

-- A dead letter with its queue, if that is one of the organization.
unfoldable pub letter_queue : ℕ → Db → DeadLetter → Option Queue
unfolding is_queue_in
letter_queue org_id db d =
    select_one (λ q. (q.id == d.original_queue_id) && is_queue_in org_id db q) db.queues

abbrev pub item_of : DeadLetter → Queue → DlqItem
item_of d q = record {
  id = d.id;
  job_id = d.job_id;
  original_queue_id = d.original_queue_id;
  queue_name = q.name;
  payload = d.payload;
  failed_at = d.failed_at;
  reason = d.reason;
  attempts_made = d.attempts_made;
  created_at = d.created_at;
}

abbrev cons_item : DeadLetter → Option Queue → List DlqItem → List DlqItem
cons_item d none rest = rest
cons_item d (some q) rest = item_of d q ∷ rest

-- `FROM dead_letter_queue d JOIN queues q … JOIN projects p … WHERE p.org_id = orgId`
unfoldable pub joined : ℕ → Db → List DeadLetter → List DlqItem
unfolding letter_queue
joined org_id db [] = []
joined org_id db (d ∷ ds) = cons_item d (letter_queue org_id db d) (joined org_id db ds)

unfoldable pub failed_later : DlqItem → DlqItem → Bool
failed_later a b = leb b.failed_at a.failed_at

unfoldable pub dead_letters : ℕ → Db → List DlqItem
unfolding joined failed_later
dead_letters org_id db = take 100 (sort_by failed_later (joined org_id db db.dead_letters))

unfoldable pub select_dead_letters : Client → String → Query (List DlqItem)
unfolding dead_letters
select_dead_letters c org m = do
  org_id ← lift (c.uuid_param org)
  λ db. (ok (dead_letters org_id db), db)

unfoldable pub list_dead_letters : World → Client → String → Action Response
unfolding select_dead_letters
list_dead_letters w c org = do
  rows ← statement w (select_dead_letters c org)
  pure (json (Body.dead_letters rows) 200)
