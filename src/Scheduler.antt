-- ===== src/Scheduler.antt =====
-- dashboard/src/server/worker-scheduler.ts: the module's two variables `inFlight` and `lastRunAt`,
-- and when its functions start a tick. Times are those of Date.now().
pub mod Spacing
use job_scheduler.Prelude.{
  ℕ, suc, ◌+◌, ◌-◌, Bool, true, false, ◌||◌, List, [], ◌∷◌, ltb, if◌then◌else◌,
}
use job_scheduler.Db.Sql.{Result, ok, throws}

abbrev pub min_interval_ms : ℕ
min_interval_ms = 2500

pub record Scheduler : Type 0 where
  -- is there a promise in `inFlight`?
  pub in_flight : Bool
  pub last_run_at : ℕ

abbrev pub initial : Scheduler
initial = record { in_flight = false; last_run_at = 0 }

-- The new state, and whether a tick is started. A time before the last run is within the interval.
unfoldable pub schedule_worker_tick : ℕ → Scheduler → Scheduler × Bool
schedule_worker_tick now s =
    if s.in_flight || ltb (now - s.last_run_at) min_interval_ms
    then (s, false)
    else (record { in_flight = true; last_run_at = now }, true)

-- A tick is started always, and `inFlight` does not hold it.
unfoldable pub run_worker_tick_now : ℕ → Scheduler → Scheduler
run_worker_tick_now now s = record s { last_run_at = now }

-- `.finally(() => { inFlight = null; })`
unfoldable pub settled : Scheduler → Scheduler
settled s = record s { in_flight = false }

-- `.catch(…)`: what the promise of a scheduled tick answers as `processed`.
unfoldable pub caught : Result ℕ → ℕ
caught (ok processed) = processed
caught (throws message) = 0

-- What calls the module: requests at a time, and the end of the tick that `inFlight` holds.
pub data Event : Type 0 where
  schedules pulses : ℕ → Event
  settles : Event

pub data Start : Type 0 where
  scheduled immediate : ℕ → Start

-- The ticks that a sequence of events starts, in order, and the state at its end.
unfoldable pub run : Scheduler → List Event → List Start × Scheduler
unfolding schedule_worker_tick run_worker_tick_now settled
run s [] = ([], s)
run s (schedules now ∷ events) =
    let (s', starts) = schedule_worker_tick now s in
    let (log, final) = run s' events in (if starts then scheduled now ∷ log else log, final)
run s (pulses now ∷ events) =
    let (log, final) = run (run_worker_tick_now now s) events in (immediate now ∷ log, final)
run s (settles ∷ events) = run (settled s) events
