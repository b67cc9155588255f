-- ===== src/Examples/Starts.antt =====
-- A page that asks for jobs every second, with a pulse in between.
use job_scheduler.Prelude.{◌+◌, ◌≤◌, ◌≡◌, refl, List, [], ◌∷◌, arith, true}
use job_scheduler.Scheduler.{
  initial, Event, schedules, pulses, settles, scheduled, immediate, run, schedule_worker_tick,
}
use job_scheduler.Scheduler.Spacing.{
  IsSpaced, run-IsSpaced, scheduled_starts, held, run_coalesces, schedule_starts,
}

abbrev polling : List Event
polling =
    schedules 5000
    ∷ schedules 6000
    ∷ settles
    ∷ schedules 7000
    ∷ pulses 7400
    ∷ schedules 8000
    ∷ schedules 10_000
    ∷ []

polling_log : (run initial polling).0 ≡ scheduled 5000 ∷ immediate 7400 ∷ scheduled 10_000 ∷ []
unfolding run
polling_log = refl

run-IsSpaced_example : IsSpaced 0 (run initial polling).0
run-IsSpaced_example = run-IsSpaced initial polling

run_coalesces_example :
    0 + scheduled_starts (run initial polling).0 ≤ 1 + held (run initial polling).1
run_coalesces_example = run_coalesces initial polling

schedule_starts_example :
    schedule_worker_tick 5000 initial ≡ (record { in_flight = true; last_run_at = 5000 }, true)
schedule_starts_example = schedule_starts 5000 initial refl (omega arith)
