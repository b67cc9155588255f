-- ===== src/Console/Keys/Revalidation.antt =====
-- What a submitted job makes the console fetch again.
use job_scheduler.Prelude.{
  ◌≡◌, refl, String, Bool, true, false, Option, none, some, [], ◌∷◌, str_eq, starts_with, ◌<>◌,
  Bool-cases, inl, inr,
}
use job_scheduler.Json.{Js}
use job_scheduler.Console.Keys.{
  Hook, queues, projects, workers, worker_pulse, dlq, queue_stats, job, job_executions, job_logs,
  all_queue_stats, jobs, keyed, key,
}

-- `typeof key === "string" && key.startsWith("jobs")`, by which SubmitJobForm revalidates.
unfoldable pub is_job_list : Option String → Bool
unfolding starts_with
is_job_list none = false
is_job_list (some k) = starts_with "jobs" k

abbrev pub lists_jobs : Hook → Bool
lists_jobs (jobs params) = true
lists_jobs _ = false

keyed-other :
    (prefix : String) (id : Option String)
    → ((s : String) → is_job_list (some (prefix <> s)) ≡ false)
    → is_job_list (keyed prefix id) ≡ false
unfolding is_job_list
keyed-other prefix none h = refl
keyed-other prefix (some id) h = elim (Bool-cases (str_eq id "")) [
  | inl e ↦ rw e refl
  | inr e ↦ rw e (h id)
]

-- Submitting a job revalidates every list of jobs, whatever its filters, and nothing else.
pub is_job_list-key : (js : Js) (h : Hook) → is_job_list (key js h) ≡ lists_jobs h
unfolding key is_job_list
is_job_list-key js queues = refl
is_job_list-key js projects = refl
is_job_list-key js workers = refl
is_job_list-key js worker_pulse = refl
is_job_list-key js dlq = refl
is_job_list-key js (queue_stats id) = keyed-other "queue-stats-" id (λ s. refl)
is_job_list-key js (job id) = keyed-other "job-" id (λ s. refl)
is_job_list-key js (job_executions id) = keyed-other "job-exec-" id (λ s. refl)
is_job_list-key js (job_logs id) = keyed-other "job-logs-" id (λ s. refl)
is_job_list-key js (all_queue_stats []) = refl
is_job_list-key js (all_queue_stats (id ∷ ids)) = refl
is_job_list-key js (jobs params) = refl
