-- ===== src/Router/Paths.antt =====
-- Which handler a method and a path reach: the tests of `handleApi` in
-- dashboard/src/server/router.ts, in their order.
pub mod Matching
use Prim.Native.Char.{Char, code}
use job_scheduler.Prelude.{
  ℕ, String, Bool, true, false, Option, none, some, ◌==◌, ◌&&◌, ◌||◌, str_eq, if◌then◌else◌,
  after_prefix,
}

-- A line terminator, which `.` does not match.
abbrev ends_line : Char → Bool
ends_line c = code c == 10 || code c == 13 || code c == 0x2028 || code c == 0x2029

-- `.+`
unfoldable pub is_one_line : String → Bool
is_one_line String.[] = true
is_one_line (String.◌∷◌ c s) = let rest = is_one_line s in if ends_line c then false else rest

abbrev push : Char → String × Option String → String × Option String
push c (head, rest) = (String.◌∷◌ c head, rest)

-- A text up to its first slash, and what follows the slash.
unfoldable pub cut : String → String × Option String
cut String.[] = ("", none)
cut (String.◌∷◌ c s) = let later = push c (cut s) in if code c == b'/' then ("", some s) else later

-- `m[2] || ""`, if the groups match.
abbrev pub with_sub : String → Option String → Option (String × String)
with_sub id none = some (id, "")
with_sub id (some sub) =
    if str_eq sub "" then none else if is_one_line sub then some (id, sub) else none

abbrev pub groups : String × Option String → Option (String × String)
groups (id, rest) = if str_eq id "" then none else with_sub id rest

-- `p.match(/^queues\/([^/]+)(?:\/(.+))?$/)` for the prefix `queues/`.
unfoldable pub match_resource : String → String → Option (String × String)
unfolding cut is_one_line after_prefix
match_resource prefix p = elim (after_prefix prefix p) [
  | none ↦ none
  | some rest ↦ groups (cut rest)
]

pub data Endpoint : Type 0 where
  login list_projects create_project list_queues create_queue pulse list_jobs : Endpoint
  list_workers list_dead_letters unknown : Endpoint
  queue_stats pause_queue resume_queue update_queue submit_job : String → Endpoint
  job_executions job_logs retry_job get_job : String → Endpoint

unfoldable pub route_queue : String → String → String → Endpoint → Endpoint
route_queue method id sub otherwise =
    if str_eq method "GET" && str_eq sub "stats"
    then queue_stats id
    else if str_eq method "POST" && str_eq sub "pause"
    then pause_queue id
    else if str_eq method "POST" && str_eq sub "resume"
    then resume_queue id
    else if str_eq method "PUT" && str_eq sub ""
    then update_queue id
    else if str_eq method "POST" && str_eq sub "jobs"
    then submit_job id
    else otherwise

unfoldable pub route_job : String → String → String → Endpoint → Endpoint
route_job method id sub otherwise =
    if str_eq method "GET" && str_eq sub "executions"
    then job_executions id
    else if str_eq method "GET" && str_eq sub "logs"
    then job_logs id
    else if str_eq method "POST" && str_eq sub "retry"
    then retry_job id
    else if str_eq method "GET" && str_eq sub ""
    then get_job id
    else otherwise

abbrev pub or_job : String → Option (String × String) → Endpoint → Endpoint
or_job method none otherwise = otherwise
or_job method (some (id, sub)) otherwise = route_job method id sub otherwise

abbrev pub or_queue : String → Option (String × String) → Endpoint → Endpoint
or_queue method none otherwise = otherwise
or_queue method (some (id, sub)) otherwise = route_queue method id sub otherwise

-- The tests behind the two patterns.
unfoldable pub route_last : String → String → Endpoint
route_last method p =
    if str_eq method "GET" && str_eq p "workers"
    then list_workers
    else if str_eq method "GET" && str_eq p "dlq"
    then list_dead_letters
    else unknown

unfoldable pub route_jobs : String → String → Endpoint
unfolding route_last route_job match_resource
route_jobs method p =
    if str_eq method "GET" && str_eq p "worker/pulse"
    then pulse
    else if str_eq method "GET" && str_eq p "jobs"
    then list_jobs
    else or_job method (match_resource "jobs/" p) (route_last method p)

unfoldable pub route : String → String → Endpoint
unfolding route_jobs route_queue match_resource
route method p =
    if str_eq method "POST" && str_eq p "auth/login"
    then login
    else if str_eq method "GET" && str_eq p "projects"
    then list_projects
    else if str_eq method "POST" && str_eq p "projects"
    then create_project
    else if str_eq method "GET" && str_eq p "queues"
    then list_queues
    else if str_eq method "POST" && str_eq p "queues"
    then create_queue
    else or_queue method (match_resource "queues/" p) (route_jobs method p)
