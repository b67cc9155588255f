-- ===== src/Console/Explorer.antt =====
-- dashboard/src/app/jobs/JobsExplorer.tsx: the filters of the list of jobs, and what it shows.
pub mod Filters
use job_scheduler.Prelude.{
  ℕ, String, Bool, true, false, not, Option, none, some, List, [], ◌∷◌, ◌++◌, ◌==◌, ltb, leb,
  str_eq, if◌then◌else◌, length, select,
}
use job_scheduler.Console.Data.{Job}

pub record Explorer : Type 0 where
  pub status_filters : List String
  pub queue_id : String
  pub selected_job_id : Option String
  pub submit_open : Bool

abbrev initial : Explorer
initial = record { status_filters = []; queue_id = ""; selected_job_id = none; submit_open = false }

-- `filters.includes(s)`
unfoldable pub holds : String → List String → Bool
holds s [] = false
holds s (t ∷ rest) = let later = holds s rest in if str_eq t s then true else later

-- `statusFilters.length === 1`: one filter is left to the API.
abbrev status_params : List String → List (String × String)
status_params (s ∷ []) = ("status", s) ∷ []
status_params _ = []

unfoldable pub params : Explorer → List (String × String)
params e =
    status_params e.status_filters
    ++ (if str_eq e.queue_id "" then [] else ("queue_id", e.queue_id) ∷ [])

unfoldable pub shown_jobs : List String → List Job → List Job
unfolding holds
shown_jobs filters items =
    if leb (length filters) 1 then items else select (λ j. holds j.status filters) items

abbrev select_given : Option String → Explorer → Explorer
select_given none e = e
select_given (some id) e = if str_eq id "" then e else record e { selected_job_id = some id }

abbrev open_given : Option String → Explorer → Explorer
open_given none e = e
open_given (some text) e = if str_eq text "1" then record e { submit_open = true } else e

-- The effect on `[searchParams]`, with the parameters `job` and `submit`.
unfoldable pub follow_search : Option String → Option String → Explorer → Explorer
follow_search job submit e = open_given submit (select_given job e)

-- The effect on `[submitJobRequest]`.
unfoldable pub follow_request : ℕ → Explorer → Explorer
follow_request request e = if ltb 0 request then record e { submit_open = true } else e

unfoldable pub toggled : String → List String → List String
unfolding holds
toggled s filters =
    if holds s filters then select (λ x. not (str_eq x s)) filters else filters ++ s ∷ []

unfoldable pub toggle_status : String → Explorer → Explorer
unfolding toggled
toggle_status s e = record e { status_filters = toggled s e.status_filters }
