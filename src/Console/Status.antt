-- ===== src/Console/Status.antt =====
-- dashboard/src/lib/status.ts: the styles of statuses.
pub mod Coverage
use job_scheduler.Prelude.{String, Option, none, some, List, [], ◌∷◌, str_eq, if◌then◌else◌}
use job_scheduler.Json.{Js}

pub record StatusStyle : Type 0 where
  pub color : String
  pub dim : String
  pub label : String

abbrev style : String → String → String → StatusStyle
style color dim label = record { color = color; dim = dim; label = label }

abbrev pub styles : List (String × StatusStyle)
styles =
    ("queued", style "var(--st-queued)" "var(--st-queued-dim)" "Queued")
    ∷ ("scheduled", style "var(--st-scheduled)" "var(--st-scheduled-dim)" "Scheduled")
    ∷ ("claimed", style "var(--st-claimed)" "var(--st-claimed-dim)" "Claimed")
    ∷ ("running", style "var(--st-running)" "var(--st-running-dim)" "Running")
    ∷ ("completed", style "var(--st-completed)" "var(--st-completed-dim)" "Completed")
    ∷ ("failed", style "var(--st-failed)" "var(--st-failed-dim)" "Failed")
    ∷ ("dead_letter", style "var(--st-dead)" "var(--st-dead-dim)" "Dead letter")
    ∷ ("dead", style "var(--st-dead)" "var(--st-dead-dim)" "Dead")
    ∷ ("retrying", style "var(--st-retrying)" "var(--st-retrying-dim)" "Retrying")
    ∷ ("active", style "var(--st-active)" "var(--st-active-dim)" "Active")
    ∷ ("offline", style "var(--st-offline)" "var(--st-offline-dim)" "Offline")
    ∷ ("paused", style "var(--st-paused)" "var(--st-paused-dim)" "Paused")
    ∷ []

abbrev pub find_style : String → List (String × StatusStyle) → Option StatusStyle
find_style key [] = none
find_style key ((name, s) ∷ rest) =
    let later = find_style key rest in if str_eq name key then some s else later

abbrev or_plain : String → Option StatusStyle → StatusStyle
or_plain status none = style "var(--text-tertiary)" "var(--bg-surface-2)" status
or_plain status (some s) = s

-- The key of a status: `status.toLowerCase().replace(/\s+/g, "_")`.
unfoldable pub get_status_style : Js → String → StatusStyle
get_status_style js status =
    or_plain status (find_style (js.spaces_to_underscores (js.to_lower status)) styles)

abbrev pub job_statuses : List String
job_statuses =
    "queued" ∷ "scheduled" ∷ "claimed" ∷ "running" ∷ "completed" ∷ "failed" ∷ "dead_letter" ∷ []
