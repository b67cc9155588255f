-- ===== src/Http.antt =====
-- dashboard/src/server/http.ts: the responses, and the JSON views of queue and job rows. A field
-- that the view leaves undefined is `none`; dashboard/src/lib/types.ts declares the same shapes.
pub mod Views
use job_scheduler.Prelude.{ℕ, ℤ, pos, String, Bool, true, false, Option, none, some, List, [], ◌∷◌}
use job_scheduler.Json.{Json, Js, null, str}
use job_scheduler.Db.{
  Job, JobStatus, queued, scheduled, claimed, running, completed, failed, dead_letter, Queue,
  Project, Execution, JobLog, Worker, WorkerStatus, User,
}
use job_scheduler.Db.Sql.{Result, ok, throws}

-- `null` and undefined give undefined; the driver reads a timestamp column as a Date.
unfoldable pub to_iso : Js → Option ℕ → Option String
to_iso js none = none
to_iso js (some t) = some (js.to_iso_string t)

pub record QueueView : Type 0 where
  pub id : ℕ
  pub project_id : ℕ
  pub name : String
  pub slug : String
  pub retry_policy_id : Option ℕ
  pub priority_default : ℤ
  pub concurrency_limit : Option ℤ
  pub is_paused : Bool
  pub created_at : Option String
  pub updated_at : Option String

unfoldable pub map_queue : Js → Queue → QueueView
unfolding to_iso
map_queue js row = record {
  id = row.id;
  project_id = row.project_id;
  name = row.name;
  slug = row.slug;
  retry_policy_id = row.retry_policy_id;
  priority_default = row.priority_default;
  concurrency_limit = row.concurrency_limit;
  is_paused = row.paused;
  created_at = to_iso js (some row.created_at);
  updated_at = to_iso js (some row.updated_at);
}

pub record JobView : Type 0 where
  pub id : ℕ
  pub queue_id : ℕ
  pub status : JobStatus
  pub priority : ℤ
  pub payload : Json
  pub idempotency_key : Option String
  pub next_run_at : Option String
  pub attempts : ℕ
  pub max_attempts : ℤ
  pub retry_policy_id : Option ℕ
  pub worker_id : Option ℕ
  pub claimed_at : Option String
  pub lease_expires_at : Option String
  pub completed_at : Option String
  pub failed_at : Option String
  pub error_message : Option String
  pub cron_expr : Option String
  pub batch_id : Option ℕ
  pub created_at : Option String
  pub updated_at : Option String

-- `typeof row.payload === "string" ? JSON.parse(row.payload) : row.payload`
unfoldable pub view_payload : Js → Json → Result Json
view_payload js (str text) = elim (js.json_parse text) [
  | none ↦ throws (js.syntax_error text)
  | some payload ↦ ok payload
]
view_payload js payload = ok payload

abbrev pub view : Js → Job → Json → JobView
view js row payload = record {
  id = row.id;
  queue_id = row.queue_id;
  status = row.status;
  priority = row.priority;
  payload = payload;
  idempotency_key = row.idempotency_key;
  next_run_at = to_iso js row.next_run_at;
  attempts = row.attempts;
  max_attempts = row.max_attempts;
  retry_policy_id = row.retry_policy_id;
  worker_id = row.worker_id;
  claimed_at = to_iso js row.claimed_at;
  lease_expires_at = to_iso js row.lease_expires_at;
  completed_at = to_iso js row.completed_at;
  failed_at = to_iso js row.failed_at;
  error_message = row.error_message;
  cron_expr = row.cron_expr;
  batch_id = row.batch_id;
  created_at = to_iso js (some row.created_at);
  updated_at = to_iso js (some row.updated_at);
}

unfoldable pub map_job : Js → Job → Result JobView
unfolding view_payload to_iso
map_job js row = elim (view_payload js row.payload) [
  | throws message ↦ throws message
  | ok payload ↦ ok (view js row payload)
]

abbrev cons_view : Result JobView → Result (List JobView) → Result (List JobView)
cons_view (throws message) rest = throws message
cons_view (ok v) (throws message) = throws message
cons_view (ok v) (ok vs) = ok (v ∷ vs)

-- `rows.map((r) => mapJob(r))`: the first row that throws ends it.
unfoldable pub map_jobs : Js → List Job → Result (List JobView)
unfolding map_job
map_jobs js [] = ok []
map_jobs js (row ∷ rows) = cons_view (map_job js row) (map_jobs js rows)

-- A quotient that JavaScript computes as a float.
pub record Ratio : Type 0 where
  pub numerator : ℤ
  pub denominator : ℕ

pub record QueueStats : Type 0 where
  pub queue_id : ℕ
  pub queue_name : String
  pub depth : ℕ
  pub throughput_1h : ℕ
  pub throughput_24h : ℕ
  pub success_rate : Ratio
  pub avg_latency_ms : Ratio
  pub p95_latency_ms : Ratio

pub record WorkerInfo : Type 0 where
  pub id : ℕ
  pub name : String
  pub status : WorkerStatus
  pub last_seen_at : Option ℕ
  pub jobs_in_flight : ℕ
  pub created_at : ℕ
  pub updated_at : ℕ

pub record DlqItem : Type 0 where
  pub id : ℕ
  pub job_id : ℕ
  pub original_queue_id : ℕ
  pub queue_name : String
  pub payload : Json
  pub failed_at : ℕ
  pub reason : Option String
  pub attempts_made : ℕ
  pub created_at : ℕ

-- The columns of a user that a login reads.
pub record Profile : Type 0 where
  pub id : ℕ
  pub org_id : ℕ
  pub email : String
  pub name : String
  pub role : String

-- What a response carries; lists of rows are pages with `has_more: false` where the code says so.
pub data Body : Type 0 where
  nothing : Body
  error_body : (message code : String) → Body
  session : (token : String) → Profile → Body
  planted : (user : Option User) → Body
  hint : Body
  projects : List Project → Body
  project : Project → Body
  queues : List QueueView → Body
  queue : QueueView → Body
  stats : QueueStats → Body
  job : JobView → Body
  jobs : List JobView → Body
  executions : List Execution → Body
  logs : List JobLog → Body
  workers : List WorkerInfo → Body
  dead_letters : List DlqItem → Body
  tick : (processed : ℕ) → Body

pub record Response : Type 0 where
  pub status : ℕ
  pub body : Body

abbrev pub json : Body → ℕ → Response
json body status = record { status = status; body = body }

abbrev pub error : String → ℕ → String → Response
error message status code = json (error_body message code) status

abbrev pub unauthorized : Response
unauthorized = error "unauthorized" 401 "UNAUTHORIZED"
