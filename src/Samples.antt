-- ===== src/Samples.antt =====
-- Small inputs on which the theorems are applied and the program is run.
use job_scheduler.Prelude.{
  ◌==◌, ℕ, ◌+◌, ◌*◌, ℤ, pos, String, str_eq, if◌then◌else◌, false, Option, none, some, [], ◌∷◌,
}
use job_scheduler.Json.{Json, str, obj, num, field, end, Js}
use job_scheduler.Db.{Db, DeadLetter, Project, Job, Queue, queued, dead_letter, empty}
use job_scheduler.Db.Client.{Client}
use job_scheduler.Db.Sql.{World, served, ok, throws}

abbrev pub plain_js : Js
plain_js = record {
  json_parse = λ _. none;
  primitive_error = λ _. none;
  syntax_error = λ s. s;
  text_of = λ _. "text";
  number_of_text = λ _. none;
  null_error = λ k. k;
  trim = λ s. s;
  to_iso_string = λ _. "2026-01-01T00:00:00.000Z";
  time_of = λ _. some (pos 0);
  to_lower = λ s. s;
  spaces_to_underscores = λ s. s;
  words = λ s. s ∷ [];
  parse_int = λ s. if str_eq s "10" then some (pos 10) else none;
  json_text = λ _. "{}";
  json_pretty = λ _. "{}";
  to_fixed = λ _ _ _. "1.00";
  query_text = λ _. "";
}

-- A second passes with each statement, and nothing fails.
abbrev pub calm : World
calm = record {
  js = plain_js;
  clock = λ n. 100_000 + n * 1000;
  uuid = λ n. 500 + n;
  fault = λ _. served;
  locked = λ _ _. false;
  stopwatch = λ _. pos 7;
}

abbrev pub payload_of : String → Json
payload_of type = obj (field "type" (str type) end)

abbrev pub job : ℕ → ℕ → ℤ → Json → Job
job id queue_id priority payload = record {
  id = id;
  queue_id = queue_id;
  status = queued;
  priority = priority;
  payload = payload;
  idempotency_key = none;
  next_run_at = some 1000;
  attempts = 0;
  max_attempts = pos 3;
  retry_policy_id = none;
  worker_id = none;
  claimed_at = none;
  lease_expires_at = none;
  completed_at = none;
  failed_at = none;
  error_message = none;
  cron_expr = none;
  batch_id = none;
  created_at = 1000;
  updated_at = 1000;
}

abbrev pub queue : ℕ → ℕ → Option ℤ → Queue
queue id project_id limit = record {
  id = id;
  project_id = project_id;
  name = "Emails";
  slug = "emails";
  retry_policy_id = none;
  priority_default = pos 5;
  concurrency_limit = limit;
  paused = false;
  created_at = 1000;
  updated_at = 1000;
}

abbrev pub low : Job
low = job 1 10 (pos 0) (payload_of "sleep")

abbrev pub high : Job
high = job 2 10 (pos 9) (payload_of "always_fail")

abbrev pub middle : Job
middle = job 3 10 (pos 5) (payload_of "noop")

-- A queue with room for two of its three jobs.
abbrev pub busy : Db
busy = record empty { queues = queue 10 3 (some (pos 2)) ∷ []; jobs = low ∷ high ∷ middle ∷ [] }

abbrev pub plain_client : Client
plain_client = record {
  text_param = λ v. elim v [ none ↦ ok none | some (str s) ↦ ok (some s) | some _ ↦ ok none ];
  int_param = λ v. elim v [ none ↦ ok none | some (num n) ↦ ok (some n) | some _ ↦ ok none ];
  jsonb_param = λ v. ok v;
  uuid_param = λ s.
      if str_eq s "org-1"
      then ok 1
      else if str_eq s "queue-10"
      then ok 10
      else if str_eq s "job-7"
      then ok 7
      else throws s;
  uuid_value_param =
      λ v. elim v [ none ↦ ok none | some (num (pos n)) ↦ ok (some n) | some _ ↦ ok none ];
  uuid_text = λ n. if n == 1 then "org-1" else if n == 10 then "queue-10" else "job-7";
}

abbrev pub project : ℕ → ℕ → Project
project id org_id = record {
  id = id;
  org_id = org_id;
  name = "Platform";
  slug = "platform";
  description = none;
  created_at = 1000;
  updated_at = 1000;
}

-- A job that has died, with the key it was submitted under.
abbrev pub dead : Job
dead = record (job 7 10 (pos 5) (payload_of "always_fail")) {
  status = dead_letter;
  attempts = 3;
  idempotency_key = some "welcome-1";
  failed_at = some 2000;
  error_message = some "boom";
}

abbrev pub letter : DeadLetter
letter = record {
  id = 90;
  job_id = 7;
  original_queue_id = 10;
  payload = payload_of "always_fail";
  failed_at = 2000;
  reason = some "boom";
  attempts_made = 3;
  created_at = 2000;
}

-- An organization with a project, its queue, a live job and a dead one.
abbrev pub shop : Db
shop = record empty {
  projects = project 3 1 ∷ [];
  queues = queue 10 3 none ∷ [];
  jobs = low ∷ dead ∷ [];
  dead_letters = letter ∷ [];
}
