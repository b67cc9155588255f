-- ===== src/Console/Pages/JobDetail.antt =====
-- dashboard/src/components/jobs/JobDetailContent.tsx: what the page of a job shows.
use job_scheduler.Prelude.{
  ℤ, pos, String, false, Option, none, some, List, map, str_eq, if◌then◌else◌, ◌<>◌,
}
use job_scheduler.Json.{Js, num}
use job_scheduler.Console.Data.{Job, JobExecution, JobLog, Queue, WorkerInfo}
use job_scheduler.Console.Format.{
  job_display_name, queue_name, worker_name, format_duration, relative_time,
}
use job_scheduler.Console.Status.{get_status_style}
use job_scheduler.Console.Pages.{Fetched, Chip, chip, if_given}

-- An entry of the execution timeline.
pub record Attempt : Type 0 where
  pub color : String
  pub title : String
  pub chip : Chip
  pub duration : String
  pub worker : String
  pub started : String
  pub error : Option String

unfoldable pub attempt_of : Js → ℤ → List WorkerInfo → JobExecution → Attempt
unfolding chip get_status_style format_duration relative_time worker_name
attempt_of js now workers e = record {
  color = (get_status_style js e.status).color;
  title = "Attempt #" <> js.text_of (num (pos e.attempt));
  chip = chip js e.status false;
  duration = format_duration js e.duration_ms;
  worker = worker_name e.worker_id workers;
  started = relative_time js now e.started_at;
  error = if_given e.error;
}

pub record LogLine : Type 0 where
  pub time : String
  pub color : String
  pub level : String
  pub message : String

abbrev level_color : String → String
level_color level =
    if str_eq level "error"
    then "var(--st-failed)"
    else if str_eq level "warn"
    then "var(--st-retrying)"
    else "var(--text-tertiary)"

-- `locale_time` is `new Date(ts).toLocaleTimeString()`.
unfoldable pub log_line : (String → String) → JobLog → LogLine
log_line locale_time l = record {
  time = locale_time l.created_at;
  color = level_color l.level;
  level = "[" <> (l.level <> "]");
  message = l.message;
}

pub record Detail : Type 0 where
  pub name : String
  pub chip : Chip
  pub id : String
  pub queue : String
  pub priority : String
  pub attempts : String
  pub created : String
  pub cron : Option String
  pub last_error : Option String
  pub payload : String
  pub timeline : List Attempt
  pub log_lines : List LogLine

-- The skeleton, the message in place of a job, or the job.
pub data JobPage : Type 0 where
  loading : JobPage
  missing : String → JobPage
  shown : Detail → JobPage

-- `locale_time` is a function of the browser.
module _ (js : Js) (locale_time : String → String) (now : ℤ) (queues : List Queue)
    (workers : List WorkerInfo) (executions : List JobExecution) (logs : List JobLog) where
  unfoldable pub detail : Job → Detail
  unfolding chip job_display_name queue_name relative_time attempt_of log_line
  detail job = record {
    name = job_display_name js job.idempotency_key (some job.payload) job.cron_expr "Unnamed job";
    chip = chip js job.status (str_eq job.status "running");
    id = job.id;
    queue = queue_name job.queue_id queues;
    priority = js.text_of (num job.priority);
    attempts = js.text_of (num (pos job.attempts)) <> (" / " <> js.text_of (num job.max_attempts));
    created = relative_time js now job.created_at;
    cron = if_given job.cron_expr;
    last_error = if_given job.error_message;
    payload = js.json_pretty job.payload;
    timeline = map (attempt_of js now workers) executions;
    log_lines = map (log_line locale_time) logs;
  }

  abbrev found : Option String → Option Job → JobPage
  found (some message) job = missing message
  found none none = missing "Job not found or access denied. Verify the job ID and try again."
  found none (some job) = shown (detail job)

  unfoldable pub job_page : Fetched Job → JobPage
  unfolding detail
  job_page f = if f.is_loading then loading else found f.error f.data_of
