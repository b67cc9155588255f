-- ===== src/Worker/Program/Kept.antt =====
-- A whole tick keeps the guarantee that it gives to the others, statement by statement.
use job_scheduler.Prelude.{
  ℕ, suc, ◌≡◌, refl, ap, inl, inr, some, none, List, [], ◌∷◌, All, Option, Bool-cases, ◌==◌,
}
use job_scheduler.Json.{Js}
use job_scheduler.Db.{Db, Job, Queue, Worker, claimed}
use job_scheduler.Worker.Registration.{
  upsert_heartbeat, activate_worker, insert_worker, insert_heartbeat, insert_heartbeat-same,
  select_worker,
}
use job_scheduler.Worker.Claim.{select_budget, select_budget-same}
use job_scheduler.Worker.Tick.{select_unpaused}
use job_scheduler.Worker.Program.{
  registered, registration, execution, executions, batch, queue_run, queue_runs, tick,
}
use job_scheduler.Worker.Program.Owned.{Safe, Safe-bind}
use job_scheduler.Worker.Program.Attempting.{Safe-idle, Safe-idle_two, Safe-done, Safe-execution}
use job_scheduler.Worker.Program.Claiming.{Keeps-claim}
use job_scheduler.Worker.Program.Statements.{Keeps-reap}

module _ (since : ℕ) where
  Safe-executions :
      (js : Js) (worker_id processed : ℕ) (jobs : List Job)
      → All (λ j. j.status ≡ claimed) jobs
      → Safe since (λ _ h. h ≡ []) jobs (executions js worker_id processed jobs)
  unfolding Safe executions
  Safe-executions js worker_id processed [] fresh = refl
  Safe-executions js worker_id processed (job ∷ jobs) fresh =
      Safe-bind since (λ _ h. h ≡ jobs) (λ _ h. h ≡ []) (job ∷ jobs) (execution js job worker_id) _
        (Safe-execution since (λ _ h. h ≡ jobs) js job jobs worker_id fresh.0 refl)
        (λ _ h e. rw e (Safe-executions js worker_id (suc processed) jobs fresh.1))

  Safe-batch :
      (js : Js) (worker_id processed : ℕ) (q : Queue) (budget : ℕ)
      → Safe since (λ _ h. h ≡ []) [] (batch js worker_id processed q budget)
  unfolding Safe batch
  Safe-batch js worker_id processed q budget = elim (Bool-cases (budget == 0)) [
    | inl e ↦ rw e refl
    | inr e ↦ rw e λ m db late d o.
        Keeps-claim since m db q.id worker_id budget late d _
          (λ rows _ fresh. Safe-executions js worker_id processed rows fresh)
  ]

  Safe-queue_run :
      (js : Js) (worker_id processed : ℕ) (q : Queue)
      → Safe since (λ _ h. h ≡ []) [] (queue_run js worker_id processed q)
  unfolding queue_run
  Safe-queue_run js worker_id processed q =
      Safe-idle since (λ _ h. h ≡ []) [] (select_budget q.id) _
        (λ m db. ap (λ (d : Db). d.jobs) (select_budget-same q.id m db))
        (Safe-batch js worker_id processed q)

  Safe-queue_runs :
      (js : Js) (worker_id processed : ℕ) (qs : List Queue)
      → Safe since (λ _ h. h ≡ []) [] (queue_runs js worker_id processed qs)
  unfolding Safe queue_runs
  Safe-queue_runs js worker_id processed [] = refl
  Safe-queue_runs js worker_id processed (q ∷ qs) =
      Safe-bind since (λ _ h. h ≡ []) (λ _ h. h ≡ []) [] (queue_run js worker_id processed q) _
        (Safe-queue_run js worker_id processed q)
        (λ processed' h e. rw e (Safe-queue_runs js worker_id processed' qs))

  Safe-registered : (row : Option Worker) → Safe since (λ _ h. h ≡ []) [] (registered row)
  unfolding registered upsert_heartbeat activate_worker insert_worker
  Safe-registered none =
      Safe-idle since (λ _ h. h ≡ []) [] insert_worker _ (λ m db. refl)
        λ id.
          Safe-idle since (λ _ h. h ≡ []) [] (insert_heartbeat id) _
            (λ m db. ap (λ (d : Db). d.jobs) (insert_heartbeat-same id m db).1)
            (λ _. Safe-done since (λ _ h. h ≡ []) [] id refl)
  Safe-registered (some row) =
      Safe-idle_two since (λ _ h. h ≡ []) [] (upsert_heartbeat row.id) (activate_worker row.id) _
        (λ m db. refl) (λ m db. refl) (λ _. Safe-done since (λ _ h. h ≡ []) [] row.id refl)

  -- A tick that starts with no job in its hands sends only statements that keep the guarantee.
  pub Safe-tick : (js : Js) → Safe since (λ _ h. h ≡ []) [] (tick js)
  unfolding Safe tick registration
  Safe-tick js m db late d o = Keeps-reap since m db _ (
      Safe-bind since (λ _ h. h ≡ []) (λ _ h. h ≡ []) [] registration _
        (Safe-idle since (λ _ h. h ≡ []) [] select_worker registered (λ m' db'. refl)
          Safe-registered)
        λ worker_id h e. rw e (
          Safe-idle since (λ _ h. h ≡ []) [] select_unpaused _ (λ m' db'. refl)
            (Safe-queue_runs js worker_id 0)))
