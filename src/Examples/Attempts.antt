-- ===== src/Examples/Attempts.antt =====
-- Attempts at jobs that succeed, fail, and fail for the last time.
use job_scheduler.Prelude.{ℕ, ◌≡◌, refl, [], ◌∷◌, arith, none, some}
use job_scheduler.Json.{member}
use job_scheduler.Db.{Db, Job, queued, completed, dead_letter}
use job_scheduler.Worker.Execute.{parse_payload, run_payload, execute_job}
use job_scheduler.Worker.Execute.Settled.{
  Settles, HasDeadLetter, execute_completes, execute_requeues, execute_buries,
}
use job_scheduler.Samples.{calm, busy, high, middle, payload_of}

abbrev seen : ℕ
seen = 103_000

execute_completes_example :
    Settles 3
      (record middle {
        status = completed;
        attempts = 1;
        completed_at = some seen;
        worker_id = none;
        lease_expires_at = none;
        error_message = none;
        updated_at = seen;
      })
      busy.jobs
      (execute_job calm middle 77 busy)
    × ((execute_job calm middle 77 busy).1.dead_letters ≡ [])
unfolding parse_payload run_payload member
execute_completes_example =
    execute_completes calm middle 77 busy (payload_of "noop") middle refl refl
      (refl, (refl, (refl, (refl, (refl, (refl, tt)))))) refl

execute_requeues_example :
    Settles 2
      (record high {
        status = queued;
        attempts = 1;
        failed_at = some seen;
        error_message = some "simulated failure";
        worker_id = none;
        claimed_at = none;
        lease_expires_at = none;
        next_run_at = some 108_000;
        updated_at = seen;
      })
      busy.jobs
      (execute_job calm high 77 busy)
    × ((execute_job calm high 77 busy).1.dead_letters ≡ [])
unfolding parse_payload run_payload member
execute_requeues_example =
    execute_requeues calm high 77 busy (payload_of "always_fail") high refl refl "simulated failure"
      (refl, (refl, (refl, (refl, (refl, (refl, tt)))))) refl (omega arith)

-- The third of three attempts.
abbrev tired : Job
tired = record high { attempts = 2 }

abbrev last_chance : Db
last_chance = record busy { jobs = tired ∷ [] }

execute_buries_example :
    Settles 2
      (record tired {
        status = dead_letter;
        attempts = 3;
        failed_at = some seen;
        error_message = some "simulated failure";
        worker_id = none;
        lease_expires_at = none;
        updated_at = seen;
      })
      last_chance.jobs
      (execute_job calm tired 77 last_chance)
    × HasDeadLetter tired
        (payload_of "always_fail")
        "simulated failure"
        (execute_job calm tired 77 last_chance).1.dead_letters
        []
unfolding parse_payload run_payload member
execute_buries_example =
    execute_buries calm tired 77 last_chance (payload_of "always_fail") tired refl refl
      "simulated failure" (refl, (refl, (refl, (refl, (refl, (refl, (refl, tt))))))) refl
      (omega arith)
