-- ===== src/Db.antt =====
-- The database as the statements of dashboard/src/server/setup.ts create it: a record of tables,
-- each a list of rows with the columns of its CREATE TABLE. UUIDs are numbers, times are
-- milliseconds, and a column that may be NULL is an Option.
pub mod Sql
pub mod Ensures
pub mod Served
pub mod Client
use job_scheduler.Prelude.{ℕ, ℤ, String, Bool, Option, List, [], false, true}
use job_scheduler.Json.{Json}

-- The enumeration `job_status`.
pub data JobStatus : Type 0 where
  queued scheduled claimed running completed failed dead_letter : JobStatus

-- The enumeration `worker_status`.
pub data WorkerStatus : Type 0 where
  active draining offline : WorkerStatus

pub record Organization : Type 0 where
  pub id : ℕ
  pub name : String
  pub slug : String
  pub created_at : ℕ
  pub updated_at : ℕ

pub record User : Type 0 where
  pub id : ℕ
  pub org_id : ℕ
  pub email : String
  pub name : String
  pub role : String
  pub password_hash : String
  pub created_at : ℕ
  pub updated_at : ℕ

pub record Project : Type 0 where
  pub id : ℕ
  pub org_id : ℕ
  pub name : String
  pub slug : String
  pub description : Option String
  pub created_at : ℕ
  pub updated_at : ℕ

pub record Queue : Type 0 where
  pub id : ℕ
  pub project_id : ℕ
  pub name : String
  pub slug : String
  pub retry_policy_id : Option ℕ
  pub priority_default : ℤ
  pub concurrency_limit : Option ℤ
  pub paused : Bool
  pub created_at : ℕ
  pub updated_at : ℕ

pub record Worker : Type 0 where
  pub id : ℕ
  pub name : String
  pub status : WorkerStatus
  pub meta : Option Json
  pub created_at : ℕ
  pub updated_at : ℕ

pub record Heartbeat : Type 0 where
  pub id : ℕ
  pub worker_id : ℕ
  pub last_seen_at : ℕ
  pub metadata : Option Json
  pub created_at : ℕ
  pub updated_at : ℕ

pub record Job : Type 0 where
  pub id : ℕ
  pub queue_id : ℕ
  pub status : JobStatus
  pub priority : ℤ
  pub payload : Json
  pub idempotency_key : Option String
  pub next_run_at : Option ℕ
  pub attempts : ℕ
  pub max_attempts : ℤ
  pub retry_policy_id : Option ℕ
  pub worker_id : Option ℕ
  pub claimed_at : Option ℕ
  pub lease_expires_at : Option ℕ
  pub completed_at : Option ℕ
  pub failed_at : Option ℕ
  pub error_message : Option String
  pub cron_expr : Option String
  pub batch_id : Option ℕ
  pub created_at : ℕ
  pub updated_at : ℕ

pub record Execution : Type 0 where
  pub id : ℕ
  pub job_id : ℕ
  pub worker_id : Option ℕ
  pub attempt : ℕ
  pub status : String
  pub started_at : ℕ
  pub finished_at : Option ℕ
  pub error : Option String
  pub duration_ms : Option ℤ
  pub created_at : ℕ
  pub updated_at : ℕ

pub record JobLog : Type 0 where
  pub id : ℕ
  pub job_id : ℕ
  pub level : String
  pub message : String
  pub metadata : Option Json
  pub created_at : ℕ

pub record DeadLetter : Type 0 where
  pub id : ℕ
  pub job_id : ℕ
  pub original_queue_id : ℕ
  pub payload : Json
  pub failed_at : ℕ
  pub reason : Option String
  pub attempts_made : ℕ
  pub created_at : ℕ

-- The tables, how many statements have been sent, and how many times a handler has called
-- scheduleWorkerTick.
pub record Db : Type 0 where
  pub organizations : List Organization
  pub users : List User
  pub projects : List Project
  pub queues : List Queue
  pub workers : List Worker
  pub heartbeats : List Heartbeat
  pub jobs : List Job
  pub executions : List Execution
  pub logs : List JobLog
  pub dead_letters : List DeadLetter
  pub statements : ℕ
  pub schedulings : ℕ

-- The tables after CREATE TABLE.
abbrev pub empty : Db
empty = record {
  organizations = [];
  users = [];
  projects = [];
  queues = [];
  workers = [];
  heartbeats = [];
  jobs = [];
  executions = [];
  logs = [];
  dead_letters = [];
  statements = 0;
  schedulings = 0;
}

-- `status = 'queued'`
abbrev pub is_queued : JobStatus → Bool
is_queued queued = true
is_queued _ = false

-- `status IN ('claimed', 'running')`
abbrev pub is_in_flight : JobStatus → Bool
is_in_flight claimed = true
is_in_flight running = true
is_in_flight _ = false
