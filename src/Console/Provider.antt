-- ===== src/Console/Provider.antt =====
-- dashboard/src/components/providers/ConsoleProvider.tsx: the state that the pages share.
pub mod Trace
use job_scheduler.Prelude.{
  ℕ, zero, suc, ◌+◌, ◌-◌, String, Bool, true, false, not, List, [], ◌∷◌, ◌++◌, ◌&&◌, ◌||◌, ltb, leb,
  str_eq, if◌then◌else◌, length, drop, count,
}
use job_scheduler.Json.{Js}
use job_scheduler.Console.Data.{Job}

pub data PulseEventType : Type 0 where
  completed failed : PulseEventType

pub record PulseEvent : Type 0 where
  pub type : PulseEventType
  pub at : ℕ

-- `prevRef.current`
pub record Seen : Type 0 where
  pub completed_count : ℕ
  pub failed_count : ℕ
  pub dead_count : ℕ

pub record Provider : Type 0 where
  pub pulse_events : List PulseEvent
  pub command_open : Bool
  pub submit_job_request : ℕ
  pub create_queue_request : ℕ
  pub seen : Seen

abbrev pub initial : Provider
initial = record {
  pulse_events = [];
  command_open = false;
  submit_job_request = 0;
  create_queue_request = 0;
  seen = record { completed_count = 0; failed_count = 0; dead_count = 0 };
}

unfoldable pub counted : List Job → Seen
counted items = record {
  completed_count = count (λ j. str_eq j.status "completed") items;
  failed_count = count (λ j. str_eq j.status "failed") items;
  dead_count = count (λ j. str_eq j.status "dead_letter") items;
}

-- The loops from 0 below `n`: event `i` is at `now + i`.
unfoldable pub burst : PulseEventType → ℕ → ℕ → List PulseEvent
burst type at zero = []
burst type at (suc n) = record { type = type; at = at } ∷ burst type (suc at) n

-- As many events as `n` is above `before`.
abbrev pub rise : PulseEventType → ℕ → ℕ → ℕ → List PulseEvent
rise type now n before = if ltb before n then burst type now (n - before) else []

unfoldable pub fresh : ℕ → Seen → Seen → List PulseEvent
unfolding burst
fresh now prev next =
    rise completed now next.completed_count prev.completed_count
    ++ rise failed now (next.failed_count + next.dead_count) (prev.failed_count + prev.dead_count)

-- `.slice(-50)`
unfoldable pub last_fifty : List PulseEvent → List PulseEvent
last_fifty events = drop (length events - 50) events

abbrev appended : List PulseEvent → List PulseEvent → List PulseEvent
appended events [] = events
appended events (e ∷ es) = last_fifty (events ++ e ∷ es)

-- The effect on `[jobPage]`, with a page of jobs.
unfoldable pub observe : ℕ → List Job → Provider → Provider
unfolding counted fresh last_fifty
observe now items p = record p {
  pulse_events = appended p.pulse_events (fresh now p.seen (counted items));
  seen = counted items;
}

unfoldable pub open_command : Provider → Provider
open_command p = record p { command_open = true }

unfoldable pub open_submit_job : Provider → Provider
open_submit_job p = record p { submit_job_request = suc p.submit_job_request }

unfoldable pub open_create_queue : Provider → Provider
open_create_queue p = record p { create_queue_request = suc p.create_queue_request }

-- A key pressed with ⌘ or Ctrl, or without.
unfoldable pub press_key : Js → Bool → Bool → String → Provider → Provider
press_key js meta ctrl key p =
    if (meta || ctrl) && str_eq (js.to_lower key) "k"
    then record p { command_open = not p.command_open }
    else p
