-- ===== src/Console/Keys.antt =====
-- dashboard/src/lib/use-api.ts: the cache key of each hook, `none` where it fetches nothing, and what
-- it fetches. The cache itself is the library SWR.
pub mod Revalidation
use job_scheduler.Prelude.{
  String, Option, none, some, List, [], ◌∷◌, map, str_eq, if◌then◌else◌, ◌<>◌,
}
use job_scheduler.Json.{Json, Js, Fields, end, field, str, obj}
use job_scheduler.Console.Api
use job_scheduler.Console.Api.{Call}

pub data Hook : Type 0 where
  queues projects workers worker_pulse dlq : Hook
  queue_stats job job_executions job_logs : Option String → Hook
  all_queue_stats : List String → Hook
  jobs : List (String × String) → Hook

-- `ids.join(",")`
abbrev join_ids : List String → String
join_ids [] = ""
join_ids (s ∷ []) = s
join_ids (s ∷ t ∷ rest) = s <> ("," <> join_ids (t ∷ rest))

-- `id ? `${prefix}${id}` : null`
abbrev keyed : String → Option String → Option String
keyed prefix none = none
keyed prefix (some id) = if str_eq id "" then none else some (prefix <> id)

abbrev fields_of : List (String × String) → Fields
fields_of [] = end
fields_of ((k, v) ∷ rest) = field k (str v) (fields_of rest)

abbrev all_key : List String → Option String
all_key [] = none
all_key (id ∷ ids) = some ("all-queue-stats-" <> join_ids (id ∷ ids))

unfoldable pub key : Js → Hook → Option String
key js queues = some "queues"
key js projects = some "projects"
key js workers = some "workers"
key js worker_pulse = some "worker-pulse"
key js dlq = some "dlq"
key js (queue_stats id) = keyed "queue-stats-" id
key js (job id) = keyed "job-" id
key js (job_executions id) = keyed "job-exec-" id
key js (job_logs id) = keyed "job-logs-" id
key js (all_queue_stats ids) = all_key ids
key js (jobs params) = some ("jobs-" <> js.json_text (obj (fields_of params)))

abbrev call_of : (String → Call) → Option String → List Call
call_of f none = []
call_of f (some id) = f id ∷ []

-- `Promise.all` of the calls, in their order.
unfoldable pub fetches : Js → Hook → List Call
fetches js queues = Api.list_queues ∷ []
fetches js projects = Api.list_projects ∷ []
fetches js workers = Api.list_workers ∷ []
fetches js worker_pulse = Api.worker_pulse ∷ []
fetches js dlq = Api.list_dlq ∷ []
fetches js (queue_stats id) = call_of Api.get_queue_stats id
fetches js (job id) = call_of Api.get_job id
fetches js (job_executions id) = call_of Api.get_job_executions id
fetches js (job_logs id) = call_of Api.get_job_logs id
fetches js (all_queue_stats ids) = map Api.get_queue_stats ids
fetches js (jobs params) = Api.list_jobs js params ∷ []
