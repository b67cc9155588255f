-- ===== src/Console/Submit.antt =====
-- dashboard/src/components/forms/SubmitJobForm.tsx: what the form keeps, and what a submission sends.
pub mod Stored
use job_scheduler.Prelude.{
  ℤ, pos, String, Bool, true, false, Option, none, some, List, [], ◌∷◌, str_eq, if◌then◌else◌, inl,
  inr, ◌⊎◌,
}
use job_scheduler.Json.{Json, Js, Fields, end, field, str, num, obj, null, is_nonzero, read_member}
use job_scheduler.Db.Sql.{Result, ok, throws}
use job_scheduler.Console.Api
use job_scheduler.Console.Api.{Browser, Reply, compact, receive}
use job_scheduler.Console.Data.{Queue}

pub data Template : Type 0 where
  sleep always_fail webhook custom : Template

pub record SubmitForm : Type 0 where
  pub queue_id : String
  pub job_name : String
  pub template : Template
  pub duration_ms : String
  pub fail_message : String
  pub priority : String
  pub max_attempts : String
  pub delay_seconds : String
  pub cron_expr : String
  pub custom_payload : String
  pub saving : Bool
  pub error : String

abbrev sleep_payload : ℤ → Json
sleep_payload ms = obj (field "type" (str "sleep") (field "duration_ms" (num ms) end))

abbrev fail_payload : String → Json
fail_payload message = obj (field "type" (str "always_fail") (field "message" (str message) end))

abbrev webhook_payload : Json
webhook_payload = obj (
    field "type" (str "webhook")
      (field "url" (str "https://example.com/hook") (field "method" (str "POST") end)))

-- `queues[0]?.id ?? ""`
abbrev first_id : List Queue → String
first_id [] = ""
first_id (q ∷ _) = q.id

abbrev initial_queue : Option String → List Queue → String
initial_queue none queues = first_id queues
initial_queue (some id) queues = id

unfoldable pub initial : Js → List Queue → Option String → SubmitForm
initial js queues default = record {
  queue_id = initial_queue default queues;
  job_name = "";
  template = sleep;
  duration_ms = "500";
  fail_message = "simulated failure";
  priority = "";
  max_attempts = "3";
  delay_seconds = "";
  cron_expr = "";
  custom_payload = js.json_pretty (sleep_payload (pos 500));
  saving = false;
  error = "";
}

-- The effect on `[queues, queueId]`.
unfoldable pub follow_queues : List Queue → SubmitForm → SubmitForm
follow_queues queues f = if str_eq f.queue_id "" then record f { queue_id = first_id queues } else f

-- `parseInt(s, 10) || d`: NaN and 0 give the default.
unfoldable pub parse_or : Js → String → ℤ → ℤ
unfolding is_nonzero
parse_or js s d = elim (js.parse_int s) [ none ↦ d | some n ↦ if is_nonzero n then n else d ]

-- The effect on `[template, durationMs, failMessage]`.
unfoldable pub follow : Js → Template → SubmitForm → SubmitForm
unfolding parse_or
follow js custom f = f
follow js sleep f = record f {
  custom_payload = js.json_pretty (sleep_payload (parse_or js f.duration_ms (pos 500)));
}
follow js always_fail f = record f { custom_payload = js.json_pretty (fail_payload f.fail_message) }
follow js webhook f = record f { custom_payload = js.json_pretty webhook_payload }

unfoldable pub follow_template : Js → SubmitForm → SubmitForm
unfolding follow
follow_template js f = follow js f.template f

-- `...(s ? { [key]: v } : {})`
abbrev pub given : String → String → Json → String × Option Json
given key s v = (key, if str_eq s "" then none else some v)

-- NaN becomes null in JSON.
abbrev pub number : Option ℤ → Json
number none = null
number (some n) = num n

unfoldable pub body : Js → SubmitForm → Json → Json
unfolding compact
body js f payload = obj (
    compact (
      ("payload", some payload)
      ∷ given "idempotency_key" (js.trim f.job_name) (str (js.trim f.job_name))
      ∷ given "priority" f.priority (number (js.parse_int f.priority))
      ∷ given "max_attempts" f.max_attempts (number (js.parse_int f.max_attempts))
      ∷ given "delay_seconds" f.delay_seconds (number (js.parse_int f.delay_seconds))
      ∷ given "cron_expr" (js.trim f.cron_expr) (str (js.trim f.cron_expr))
      ∷ []))

-- What else a handler does: it fetches the lists of jobs again, and calls `onSubmitted(job.id)`.
pub data Act : Type 0 where
  revalidate_jobs : Act
  submitted : Option Json → Act

abbrev begun : SubmitForm → SubmitForm
begun f = record f { saving = true; error = "" }

abbrev ended : SubmitForm → SubmitForm
ended f = record f { saving = false }

abbrev failed : String → SubmitForm → SubmitForm
failed message f = record f { error = message }

abbrev handed : Option Json ⊎ String → SubmitForm → SubmitForm × List Act
handed (inl id) f = (ended f, revalidate_jobs ∷ submitted id ∷ [])
handed (inr message) f = (ended (failed message f), revalidate_jobs ∷ [])

-- handleSubmit behind the `await`: the rest of the try block, the catch and the finally clause.
unfoldable pub settle_submit : Js → Result Json → SubmitForm → SubmitForm × List Act
settle_submit js (throws message) f = (ended (failed message f), [])
settle_submit js (ok job) f = handed (read_member js "id" job) f

abbrev answered : Js → SubmitForm → Result Json × Browser → SubmitForm × List Act × Browser
answered js f (result, b) = let (g, acts) = settle_submit js result f in (g, acts, b)

abbrev send : Js → SubmitForm → Reply → Browser → Option Json → SubmitForm × List Act × Browser
send js f reply b none = (ended (failed "Payload must be valid JSON." f), [], b)
send js f reply b (some payload) =
    answered js f (receive js (Api.enqueue_job f.queue_id (body js f payload)).auth reply b)

-- handleSubmit, where the server gives the reply.
unfoldable pub handle_submit : Js → SubmitForm → Reply → Browser → SubmitForm × List Act × Browser
unfolding receive settle_submit Api.enqueue_job
handle_submit js f reply b = send js (begun f) reply b (js.json_parse f.custom_payload)
