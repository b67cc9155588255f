-- ===== src/Console/Data.antt =====
-- dashboard/src/lib/types.ts: the rows as the console receives them.
use job_scheduler.Prelude.{ℕ, ℤ, String, Bool, Option, List}
use job_scheduler.Json.{Json}
use job_scheduler.Http.{Ratio}

pub record Queue : Type 0 where
  pub id : String
  pub project_id : String
  pub name : String
  pub slug : String
  pub retry_policy_id : Option String
  pub priority_default : ℤ
  pub concurrency_limit : Option ℤ
  pub is_paused : Bool
  pub created_at : String
  pub updated_at : String

pub record QueueStats : Type 0 where
  pub queue_id : String
  pub queue_name : String
  pub depth : ℕ
  pub throughput_1h : ℕ
  pub throughput_24h : ℕ
  pub success_rate : Ratio
  pub avg_latency_ms : Ratio
  pub p95_latency_ms : Ratio

pub record Job : Type 0 where
  pub id : String
  pub queue_id : String
  pub status : String
  pub priority : ℤ
  pub payload : Json
  pub idempotency_key : Option String
  pub next_run_at : Option String
  pub attempts : ℕ
  pub max_attempts : ℤ
  pub retry_policy_id : Option String
  pub worker_id : Option String
  pub claimed_at : Option String
  pub lease_expires_at : Option String
  pub completed_at : Option String
  pub failed_at : Option String
  pub error_message : Option String
  pub cron_expr : Option String
  pub batch_id : Option String
  pub created_at : String
  pub updated_at : String

pub record JobExecution : Type 0 where
  pub id : String
  pub job_id : String
  pub worker_id : String
  pub attempt : ℕ
  pub status : String
  pub started_at : String
  pub finished_at : Option String
  pub error : Option String
  pub duration_ms : Option ℤ

pub record JobLog : Type 0 where
  pub id : String
  pub job_id : String
  pub level : String
  pub message : String
  pub metadata : Option Json
  pub created_at : String

pub record WorkerInfo : Type 0 where
  pub id : String
  pub name : String
  pub status : String
  pub last_seen_at : Option String
  pub jobs_in_flight : ℕ
  pub created_at : String
  pub updated_at : String

pub record DlqItem : Type 0 where
  pub id : String
  pub job_id : String
  pub original_queue_id : String
  pub queue_name : String
  pub payload : Json
  pub failed_at : String
  pub reason : Option String
  pub attempts_made : ℕ
  pub created_at : String

pub record Page (A : Type 0) : Type 0 where
  pub items : List A
  pub next_cursor : Option String
  pub has_more : Bool

pub record Project : Type 0 where
  pub id : String
  pub org_id : String
  pub name : String
  pub slug : String
  pub description : Option String
  pub created_at : String
  pub updated_at : String
