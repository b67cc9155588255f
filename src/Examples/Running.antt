-- ===== src/Examples/Running.antt =====
-- Whole ticks on the samples.
use job_scheduler.Prelude.{insert_sorted, ℕ, ◌≡◌, refl, List, [], ◌∷◌, map}
use job_scheduler.Json
use job_scheduler.Db.{Job, JobStatus, queued, completed}
use job_scheduler.Db.Sql
use job_scheduler.Worker.Registration
use job_scheduler.Worker.Reaper
use job_scheduler.Worker.Claim
use job_scheduler.Worker.Execute
use job_scheduler.Worker.Tick
use job_scheduler.Samples.{calm, busy}

-- What the worker runs.
abbrev worker : Unit {0}
unfolding Tick.run_worker_tick Sql.statement Reaper.reaper Registration.ensure_worker
worker = tt

statuses : List Job → List (ℕ × JobStatus × ℕ)
statuses = map (λ j. (j.id, j.status, j.attempts))

-- The two jobs of the highest priority are executed: one fails and is queued again, one completes.
tick_statuses :
    statuses (Tick.run_worker_tick calm busy).1.jobs
    ≡ (1, queued, 0) ∷ (2, queued, 1) ∷ (3, completed, 1) ∷ []
unfolding statuses Tick.run_worker_tick Sql.statement Reaper.reaper Registration.ensure_worker
    Registration.insert_heartbeat Registration.insert_worker Claim.select_budget Claim.claim
    Claim.lease_job Claim.rank insert_sorted Claim.is_claimable Claim.ranks_before
    Claim.in_flight_of Execute.execute_job Execute.update_job Execute.insert_execution
    Execute.insert_log Execute.finish_execution Json.member
tick_statuses = refl
