-- ===== src/Examples/Interleavings.antt =====
-- Ticks statement by statement: alone, side by side, and past the end of a lease.
use job_scheduler.Prelude.{
  ℕ, ◌+◌, ◌≤◌, ◌≡◌, zero, suc, refl, String, List, [], ◌∷◌, ◌++◌, map, arith, select, not,
  insert_sorted, ltb, if◌then◌else◌,
}
use job_scheduler.Json
use job_scheduler.Db.{Execution}
use job_scheduler.Db.Sql
use job_scheduler.Db.Sql.{World}
use job_scheduler.Worker.Registration
use job_scheduler.Worker.Reaper
use job_scheduler.Worker.Claim
use job_scheduler.Worker.Execute
use job_scheduler.Worker.Lifecycle.{Rows, Moved, Lives}
use job_scheduler.Worker.Program.{tick, step}
use job_scheduler.Worker.Program.Alone.{run, run-tick}
use job_scheduler.Worker.Program.Interleaved.{interleave, Within, interleave-Moved}
use job_scheduler.Worker.Tick.{run_worker_tick}
use job_scheduler.Worker.Tick.Refinement.{run_worker_tick-Lives}
use job_scheduler.Worker.Tick.Length.{most}
use job_scheduler.Worker.Tick.Length.Turns.{run_worker_tick-statements}
use job_scheduler.Samples.{calm, busy}

run-tick_example : run calm (tick calm.js) busy ≡ run_worker_tick calm busy
run-tick_example = run-tick calm busy

run_worker_tick-Lives_example : Rows Lives busy.jobs (run_worker_tick calm busy).1.jobs
run_worker_tick-Lives_example = run_worker_tick-Lives calm busy (omega arith)

run_worker_tick-statements_example :
    (run_worker_tick calm busy).1.statements
    ≤ busy.statements + 5 + most (select (λ q. not q.paused) busy.queues)
run_worker_tick-statements_example =
    run_worker_tick-statements calm busy (omega arith) (omega arith)

-- A world in which every statement runs within one second.
abbrev brisk : World
brisk = record calm { clock = λ _. 100_000 }

brisk-Within : Within 100_000 brisk
brisk-Within n = omega arith

-- Both ticks take turns up to the first claim.
abbrev turns : List ℕ
turns = 0 ∷ 1 ∷ 0 ∷ 1 ∷ 0 ∷ 1 ∷ 0 ∷ 1 ∷ 0 ∷ 1 ∷ 0 ∷ 1 ∷ 0 ∷ []

interleave-Moved_example :
    let (runs, before) = interleave brisk turns (λ _. tick brisk.js) busy in
    Rows Moved before.jobs (step brisk (runs 1) before).1.jobs
interleave-Moved_example = interleave-Moved 100_000 brisk brisk-Within turns 1 busy (omega arith)

-- A world in which a minute passes behind the eighth statement.
abbrev slow : World
slow = record calm { clock = λ n. if ltb n 8 then 100_000 else 200_000 }

attempts_of : List Execution → List (ℕ × ℕ × String)
attempts_of = map (λ e. (e.job_id, e.attempt, e.status))

-- The first tick claims two jobs and starts one; the second finds their leases run out and runs
-- both; the first goes on with both. Each job is run twice.
abbrev times : ℕ → ℕ → List ℕ
times zero i = []
times (suc n) i = i ∷ times n i

abbrev overrun : List ℕ
overrun = times 8 0 ++ (times 21 1 ++ times 13 0)

overrun_runs_twice :
    attempts_of (interleave slow overrun (λ _. tick slow.js) busy).1.executions
    ≡ (2, 2, "failed") ∷ (3, 1, "completed") ∷ (2, 1, "failed") ∷ (3, 1, "completed") ∷ []
unfolding attempts_of interleave tick Sql.statement Reaper.reclaim Reaper.is_stale
    Registration.upsert_heartbeat Registration.activate_worker Registration.insert_heartbeat
    Registration.insert_worker Claim.select_budget Claim.claim Claim.lease_job Claim.rank
    insert_sorted Claim.is_claimable Claim.ranks_before Claim.in_flight_of Execute.update_job
    Execute.insert_execution Execute.run_payload Execute.parse_payload Execute.insert_log
    Execute.finish_execution Json.member
overrun_runs_twice = refl
