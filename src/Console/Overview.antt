-- ===== src/Console/Overview.antt =====
-- What the pages derive from what they fetch: dashboard/src/app/page.tsx,
-- dashboard/src/components/shell/TopBar.tsx and dashboard/src/app/dlq/page.tsx.
use job_scheduler.Prelude.{
  ℕ, ◌+◌, String, Bool, true, false, Option, none, some, List, [], ◌∷◌, ◌==◌, ◌||◌, ltb, str_eq,
  if◌then◌else◌, starts_with, count,
}
use job_scheduler.Json.{Json, Js}
use job_scheduler.Db.Sql.{Result, ok, throws}
use job_scheduler.Console.Api
use job_scheduler.Console.Api.{Browser, Reply, receive}
use job_scheduler.Console.Data.{Queue, QueueStats, WorkerInfo}

abbrev sum_of : (QueueStats → ℕ) → List QueueStats → ℕ
sum_of f [] = 0
sum_of f (s ∷ rest) = f s + sum_of f rest

unfoldable pub total_depth : List QueueStats → ℕ
total_depth stats = sum_of (λ s. s.depth) stats

unfoldable pub throughput_1h : List QueueStats → ℕ
throughput_1h stats = sum_of (λ s. s.throughput_1h) stats

unfoldable pub throughput_24h : List QueueStats → ℕ
throughput_24h stats = sum_of (λ s. s.throughput_24h) stats

unfoldable pub active_workers : List WorkerInfo → ℕ
active_workers workers = count (λ w. str_eq w.status "active") workers

unfoldable pub paused_count : List Queue → ℕ
paused_count queues = count (λ q. q.is_paused) queues

unfoldable pub is_degraded : List Queue → List WorkerInfo → Bool
unfolding paused_count active_workers
is_degraded queues workers = ltb 0 (paused_count queues) || active_workers workers == 0

unfoldable pub breadcrumb : String → String
breadcrumb path =
    if str_eq path "/"
    then "Overview"
    else if str_eq path "/queues"
    then "Queues"
    else if str_eq path "/jobs"
    then "Jobs"
    else if str_eq path "/workers"
    then "Workers"
    else if str_eq path "/dlq"
    then "Dead Letter"
    else "Overview"

unfoldable pub crumb : String → String
unfolding breadcrumb starts_with
crumb path = if starts_with "/jobs/" path then "Job detail" else breadcrumb path

pub record DlqPage : Type 0 where
  pub retrying : Option String
  pub action_error : String

abbrev settled : Result Json × Browser → DlqPage → DlqPage × Bool × Browser
settled (throws message, b) p = (record { retrying = none; action_error = message }, false, b)
settled (ok _, b) p = (record p { retrying = none }, true, b)

-- `retry`, and whether it fetches the dead letters again.
unfoldable pub retry : Js → String → DlqPage → Reply → Browser → DlqPage × Bool × Browser
unfolding receive Api.retry_job
retry js id p reply b =
    settled (receive js (Api.retry_job id).auth reply b)
      (record { retrying = some id; action_error = "" })
