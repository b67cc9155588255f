-- ===== src/Examples/Ticks.antt =====
-- A tick on sound tables.
use job_scheduler.Prelude.{refl, arith}
use job_scheduler.Worker.Invariant.{IsSound}
use job_scheduler.Worker.Tick.{run_worker_tick}
use job_scheduler.Worker.Tick.Soundness.{run_worker_tick-IsSound}
use job_scheduler.Samples.{calm, busy}

pub busy-IsSound : IsSound busy
busy-IsSound = record {
  job_ids = omega arith;
  rows = (
    record { worker = refl; lease = refl; in_flight = λ c. c },
    (
      record { worker = refl; lease = refl; in_flight = λ c. c },
      (record { worker = refl; lease = refl; in_flight = λ c. c }, tt),
    ),
  );
  one_heartbeat = tt;
  one_dead_letter = tt;
}

run_worker_tick-IsSound_example : IsSound (run_worker_tick calm busy).1
run_worker_tick-IsSound_example = run_worker_tick-IsSound calm busy busy-IsSound
