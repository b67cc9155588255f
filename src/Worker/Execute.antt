-- ===== src/Worker/Execute.antt =====
-- `executeJob` of dashboard/src/server/worker.ts: one attempt at a claimed job. The job's row, its
-- execution row, its log and the dead letter queue are written by separate statements.
pub mod Soundness
pub mod Outcome
pub mod Settled
use job_scheduler.Prelude.{
  Bool, ℕ, ◌+◌, ◌*◌, ℤ, pos, leb_ℤ, min_ℤ, String, str_eq, Option, none, some, [], ◌∷◌, ◌++◌, ◌==◌,
  if◌then◌else◌, select_one, update,
}
use job_scheduler.Json.{Json, Js, null, str, member, truthy, number_or, conversion_error}
use job_scheduler.Db.{DeadLetter, Job, queued, running, completed, dead_letter}
use job_scheduler.Db.Sql.{
  World, Moment, Result, ok, throws, Query, Action, statement, pure, throw, lift, ◌>>=◌, ◌>>◌,
}

-- `UPDATE jobs SET … WHERE id = ${jobId}`
unfoldable pub update_job : ℕ → (ℕ → Job → Job) → Query (Unit {0})
update_job id f m db = (ok tt, record db { jobs = update (λ j. j.id == id) (f m.now) db.jobs })

abbrev pub start_job : ℕ → ℕ → Job → Job
start_job attempt now j = record j { status = running; attempts = attempt; updated_at = now }

abbrev pub complete_job : ℕ → Job → Job
complete_job now j = record j {
  status = completed;
  completed_at = some now;
  worker_id = none;
  lease_expires_at = none;
  error_message = none;
  updated_at = now;
}

abbrev pub bury_job : String → ℕ → Job → Job
bury_job message now j = record j {
  status = dead_letter;
  failed_at = some now;
  error_message = some message;
  worker_id = none;
  lease_expires_at = none;
  updated_at = now;
}

abbrev pub requeue_job : String → ℕ → Job → Job
requeue_job message now j = record j {
  status = queued;
  failed_at = some now;
  error_message = some message;
  worker_id = none;
  claimed_at = none;
  lease_expires_at = none;
  next_run_at = some (now + 5 * 1000);
  updated_at = now;
}

-- `INSERT INTO job_executions … RETURNING id`
unfoldable pub insert_execution : ℕ → ℕ → ℕ → Query ℕ
insert_execution job_id worker_id attempt m db = (
  ok m.fresh,
  record db {
    executions =
        db.executions
        ++ record {
          id = m.fresh;
          job_id = job_id;
          worker_id = some worker_id;
          attempt = attempt;
          status = "running";
          started_at = m.now;
          finished_at = none;
          error = none;
          duration_ms = none;
          created_at = m.now;
          updated_at = m.now;
        }
          ∷ [];
  },
)

-- `UPDATE job_executions SET status, finished_at = NOW(), duration_ms [, error] WHERE id`
unfoldable pub finish_execution : ℕ → String → ℤ → Option String → Query (Unit {0})
finish_execution id status duration error m db = (
  ok tt,
  record db {
    executions =
        update (λ x. x.id == id)
          (λ x. record x {
            status = status;
            finished_at = some m.now;
            duration_ms = some duration;
            error = elim error [ none ↦ x.error | some e ↦ some e ];
          })
          db.executions;
  },
)

unfoldable pub insert_log : ℕ → String → String → Query (Unit {0})
insert_log job_id level message m db = (
  ok tt,
  record db {
    logs =
        db.logs
        ++ record {
          id = m.fresh;
          job_id = job_id;
          level = level;
          message = message;
          metadata = none;
          created_at = m.now;
        }
          ∷ [];
  },
)

abbrev buries : ℕ → DeadLetter → Bool
buries id d = d.job_id == id

abbrev new_dead_letter : Job → Json → String → ℕ → Moment → DeadLetter
new_dead_letter job payload reason attempt m = record {
  id = m.fresh;
  job_id = job.id;
  original_queue_id = job.queue_id;
  payload = payload;
  failed_at = m.now;
  reason = some reason;
  attempts_made = attempt;
  created_at = m.now;
}

-- `INSERT INTO dead_letter_queue … ON CONFLICT (job_id) DO NOTHING`
unfoldable pub insert_dead_letter : Job → Json → String → ℕ → Query (Unit {0})
insert_dead_letter job payload reason attempt m db = (
  ok tt,
  record db {
    dead_letters = elim (select_one (buries job.id) db.dead_letters) [
      | some _ ↦ db.dead_letters
      | none ↦ db.dead_letters ++ new_dead_letter job payload reason attempt m ∷ []
    ];
  },
)

-- The exception, or what stands in its absence: the catch clause takes the message.
abbrev caught_or : Option String → String → String
caught_or none text = text
caught_or (some message) text = message

-- `String(payload.message || "simulated failure")`
abbrev failure_message : Js → Option Json → String
failure_message js none = "simulated failure"
failure_message js (some v) =
    if truthy (some v)
    then caught_or (conversion_error js (some v)) (js.text_of v)
    else "simulated failure"

-- The work of a payload: `none` if it succeeds, the message if it fails. Sleeping changes nothing; it
-- fails where Number(payload.duration_ms) throws.
abbrev pub run_member : Js → Json → Option Json → Option String
run_member js payload (some (str type)) =
    if str_eq type "sleep"
    then conversion_error js (member "duration_ms" payload)
    else if str_eq type "always_fail"
    then some (failure_message js (member "message" payload))
    else none
run_member js payload _ = none

unfoldable pub run_payload : Js → Json → Option String
run_payload js null = some (js.null_error "type")
run_payload js payload = run_member js payload (member "type" payload)

-- `Math.min(Number(payload.duration_ms) || 100, 5000)`, how long a sleep waits.
unfoldable pub sleep_ms : Js → Json → ℤ
unfolding number_or
sleep_ms js payload = min_ℤ (number_or js (member "duration_ms" payload) (pos 100)) (pos 5000)

-- `typeof job.payload === "string" ? JSON.parse(job.payload) : job.payload`
unfoldable pub parse_payload : Js → Json → Result Json
parse_payload js (str text) = elim (js.json_parse text) [
  | none ↦ throws (js.syntax_error text)
  | some payload ↦ ok payload
]
parse_payload js payload = ok payload

abbrev pub read_payload : Js → Json → Action Json
read_payload js payload = lift (parse_payload js payload)

-- What is done with the job itself after a failed attempt.
unfoldable pub settle_failure : World → Job → Json → ℕ → String → Action (Unit {0})
settle_failure w job payload attempt message =
    if leb_ℤ job.max_attempts (pos attempt)
    then statement w (update_job job.id (bury_job message))
      >> statement w (insert_dead_letter job payload message attempt)
    else statement w (update_job job.id (requeue_job message))

unfoldable pub settle : World → Job → Json → ℕ → ℕ → ℤ → Option String → Action (Unit {0})
unfolding settle_failure
settle w job payload attempt execution duration none = do
  statement w (update_job job.id complete_job)
  statement w (finish_execution execution "completed" duration none)
  statement w (insert_log job.id "info" "Job completed")
settle w job payload attempt execution duration (some message) = do
  settle_failure w job payload attempt message
  statement w (finish_execution execution "failed" duration (some message))
  statement w (insert_log job.id "error" message)

abbrev pub stopwatch : World → Action ℤ
stopwatch w db = (ok (w.stopwatch db.statements), db)

-- The body behind the reading of the payload.
unfoldable pub attempt_job : World → Job → ℕ → Json → Action (Unit {0})
unfolding run_payload settle
attempt_job w job worker_id payload = do
  let attempt = job.attempts + 1
  statement w (update_job job.id (start_job attempt))
  execution ← statement w (insert_execution job.id worker_id attempt)
  statement w (insert_log job.id "info" "Job started")
  duration ← stopwatch w
  settle w job payload attempt execution duration (run_payload w.js payload)

unfoldable pub execute_job : World → Job → ℕ → Action (Unit {0})
unfolding parse_payload attempt_job
execute_job w job worker_id = read_payload w.js job.payload >>= attempt_job w job worker_id
