-- ===== src/Scheduler/Spacing.antt =====
-- How often ticks are started, and how many scheduled ones are in flight at once.
use job_scheduler.Prelude.{
  ℕ, suc, ◌+◌, ◌-◌, ◌*◌, ◌≤◌, ◌≡◌, refl, subst, inl, inr, true, false, List, [], ◌∷◌, arith,
  Bool-cases, if◌then◌else◌,
}
use job_scheduler.Scheduler.{
  min_interval_ms, Scheduler, schedule_worker_tick, run_worker_tick_now, settled, Event, schedules,
  pulses, settles, Start, scheduled, immediate, run,
}

abbrev pub time : Start → ℕ
time (scheduled t) = t
time (immediate t) = t

-- Each scheduled start comes at least the interval after the start before it.
abbrev pub IsSpaced : ℕ → List Start → Type 0
IsSpaced last [] = Unit {0}
IsSpaced last (scheduled t ∷ log) = (last + min_interval_ms ≤ t) × IsSpaced t log
IsSpaced last (immediate t ∷ log) = IsSpaced t log

-- The three kinds of events, one lemma for the case that starts a scheduled tick and one for the
-- case that does not.
starts_late :
    (now : ℕ) (s : Scheduler)
    → (schedule_worker_tick now s).1 ≡ true
    → (s.in_flight ≡ false)
      × (s.last_run_at + min_interval_ms ≤ now)
      × ((schedule_worker_tick now s).0 ≡ record { in_flight = true; last_run_at = now })
unfolding schedule_worker_tick
starts_late now s h = ground arith

keeps_quiet :
    (now : ℕ) (s : Scheduler)
    → (schedule_worker_tick now s).1 ≡ false
    → (schedule_worker_tick now s).0 ≡ s
unfolding schedule_worker_tick
keeps_quiet now s h = ground arith

pulse_time : (now : ℕ) (s : Scheduler) → (run_worker_tick_now now s).last_run_at ≡ now
unfolding run_worker_tick_now
pulse_time now s = refl

settled_time : (s : Scheduler) → (settled s).last_run_at ≡ s.last_run_at
unfolding settled
settled_time s = refl

-- Whatever is called when: each scheduled tick starts at least 2500 ms after the start before it,
-- scheduled or not, and the first one at least 2500 ms after the last run.
pub run-IsSpaced : (s : Scheduler) (events : List Event) → IsSpaced s.last_run_at (run s events).0
unfolding run
run-IsSpaced s [] = tt
run-IsSpaced s (schedules now ∷ events) = elim (Bool-cases (schedule_worker_tick now s).1) [
  | inl e ↦
      let (_, late, next) = starts_late now s e in
      rw (e, next) (late, run-IsSpaced (record { in_flight = true; last_run_at = now }) events)
  | inr e ↦ rw (e, keeps_quiet now s e) (run-IsSpaced s events)
]
run-IsSpaced s (pulses now ∷ events) =
    subst (λ t. IsSpaced t (run (run_worker_tick_now now s) events).0) (pulse_time now s)
      (run-IsSpaced (run_worker_tick_now now s) events)
run-IsSpaced s (settles ∷ events) =
    subst (λ t. IsSpaced t (run (settled s) events).0) (settled_time s)
      (run-IsSpaced (settled s) events)

-- How many scheduled ticks were started, and how many ended.
abbrev pub scheduled_starts : List Start → ℕ
scheduled_starts [] = 0
scheduled_starts (scheduled t ∷ log) = suc (scheduled_starts log)
scheduled_starts (immediate t ∷ log) = scheduled_starts log

abbrev pub ends : List Event → ℕ
ends [] = 0
ends (settles ∷ events) = suc (ends events)
ends (schedules now ∷ events) = ends events
ends (pulses now ∷ events) = ends events

abbrev pub held : Scheduler → ℕ
held s = if s.in_flight then 1 else 0

settled_free : (s : Scheduler) → held (settled s) ≡ 0
unfolding settled
settled_free s = refl

held_le : (s : Scheduler) → held s ≤ 1
held_le s = ground arith

held_pulse : (now : ℕ) (s : Scheduler) → held (run_worker_tick_now now s) ≡ held s
unfolding run_worker_tick_now
held_pulse now s = refl

-- Scheduled ticks never overlap: as many as were started in any run of events have ended, but for
-- the one that is held in flight at its end, where the one held at its start counts as started.
pub run_coalesces :
    (s : Scheduler) (events : List Event)
    → held s + scheduled_starts (run s events).0 ≤ ends events + held (run s events).1
unfolding run
run_coalesces s [] = omega arith
run_coalesces s (schedules now ∷ events) = elim (Bool-cases (schedule_worker_tick now s).1) [
  | inl e ↦
      let (free, _, next) = starts_late now s e in
      rw (e, next, free)
        (omega (arith, run_coalesces (record { in_flight = true; last_run_at = now }) events))
  | inr e ↦ rw (e, keeps_quiet now s e) (run_coalesces s events)
]
run_coalesces s (pulses now ∷ events) =
    omega (arith, held_pulse now s, run_coalesces (run_worker_tick_now now s) events)
run_coalesces s (settles ∷ events) =
    omega (arith, settled_free s, held_le s, run_coalesces (settled s) events)

-- The clock does not run backwards, and stops at the limit.
abbrev pub IsTimed : ℕ → ℕ → List Event → Type 0
IsTimed from limit [] = from ≤ limit
IsTimed from limit (schedules now ∷ events) = (from ≤ now) × IsTimed now limit events
IsTimed from limit (pulses now ∷ events) = (from ≤ now) × IsTimed now limit events
IsTimed from limit (settles ∷ events) = IsTimed from limit events

IsTimed-le : (from limit : ℕ) (events : List Event) → IsTimed from limit events → from ≤ limit
IsTimed-le from limit [] h = h
IsTimed-le from limit (schedules now ∷ events) h =
    omega (arith, h.0, IsTimed-le now limit events h.1)
IsTimed-le from limit (pulses now ∷ events) h = omega (arith, h.0, IsTimed-le now limit events h.1)
IsTimed-le from limit (settles ∷ events) h = IsTimed-le from limit events h

-- With a clock that does not run backwards, scheduled ticks start at a rate of at most one for
-- every 2500 ms since the last run.
pub run_rate :
    (s : Scheduler) (from limit : ℕ) (events : List Event)
    → s.last_run_at ≤ from
    → IsTimed from limit events
    → min_interval_ms * scheduled_starts (run s events).0 ≤ limit - s.last_run_at
unfolding run
run_rate s from limit [] le timed = omega arith
run_rate s from limit (schedules now ∷ events) le timed =
    elim (Bool-cases (schedule_worker_tick now s).1) [
      | inl e ↦
          let (_, late, next) = starts_late now s e in
          rw (e, next)
            (omega (
              arith,
              late,
              IsTimed-le now limit events timed.1,
              run_rate (record { in_flight = true; last_run_at = now }) now limit events
                  (omega arith) timed.1,
            ))
      | inr e ↦
          rw (e, keeps_quiet now s e) (run_rate s now limit events (omega (arith, timed.0)) timed.1)
    ]
run_rate s from limit (pulses now ∷ events) le timed = omega (
  arith,
  timed.0,
  pulse_time now s,
  IsTimed-le now limit events timed.1,
  run_rate (run_worker_tick_now now s) now limit events (omega (arith, pulse_time now s)) timed.1,
)
run_rate s from limit (settles ∷ events) le timed = omega (
  arith,
  settled_time s,
  run_rate (settled s) from limit events (omega (arith, settled_time s)) timed,
)

-- A call while no scheduled tick is in flight and the last run is an interval ago starts a tick.
pub schedule_starts :
    (now : ℕ) (s : Scheduler)
    → s.in_flight ≡ false
    → s.last_run_at + min_interval_ms ≤ now
    → schedule_worker_tick now s ≡ (record { in_flight = true; last_run_at = now }, true)
unfolding schedule_worker_tick
schedule_starts now s free late = ground arith
