-- ===== src/Examples/Forms.antt =====
-- Witnesses for the forms and the shared state of the console.
use job_scheduler.Prelude.{
  length, ◌≤◌, drop, ◌-◌, ◌≡◌, refl, pos, some, none, [], ◌∷◌, count, ne_of_str_eq, String, arith,
  List, false,
}
use job_scheduler.Json.{Json, obj, field, str, end, null, read_member}
use job_scheduler.Db.Sql.{moment, ok}
use job_scheduler.Db.{empty}
use job_scheduler.Db.Client.{Client}
use job_scheduler.Router.Submit.{new_job, job_row}
use job_scheduler.Console.Api.{Browser, replied}
use job_scheduler.Console.Data.{Job}
use job_scheduler.Console.Submit
use job_scheduler.Console.Submit.{SubmitForm, body}
use job_scheduler.Console.Submit.Stored.{TakesTexts, said, said_text, job_row-said}
use job_scheduler.Console.Session.{LoginForm, handle_login, guard, ready, replaced_by, sign_out}
use job_scheduler.Console.Session.Entering.{on, handle_login-Access}
use job_scheduler.Console.NewQueue
use job_scheduler.Console.NewQueue.Typing.{Edit, edited, intended, edited-intended}
use job_scheduler.Console.Provider
use job_scheduler.Console.Provider.{Provider, completed, failed, counted, fresh, observe}
use job_scheduler.Console.Provider.Trace.{
  is_of, Pages, observed, log, rises, completed_in, failed_in, observed_pulse,
}
use job_scheduler.Samples.{calm, plain_js, plain_client, payload_of}

-- A client that takes NULL as the database does.
abbrev client : Client
client = record plain_client {
  text_param = λ v. elim v [
    | none ↦ ok none
    | some null ↦ ok none
    | some (str s) ↦ ok (some s)
    | some _ ↦ ok none
  ];
}

client-TakesTexts : TakesTexts client
client-TakesTexts = record { text = λ s. refl; nothing = refl }

abbrev form : SubmitForm
form = record (Submit.initial plain_js [] (some "queue-10")) {
  job_name = "welcome-2";
  priority = "10";
}

job_row-said_example :
    job_row plain_js client "queue-10"
      (pos 5)
      (body plain_js form (payload_of "noop"))
      (moment calm empty)
    ≡ ok (
        new_job
          (moment calm empty)
          10
          (said plain_js "10" (pos 5))
          (payload_of "noop")
          (said_text "welcome-2")
          (said plain_js "3" (pos 3))
          (said plain_js "" (pos 0))
          (said_text ""))
unfolding Submit.initial
job_row-said_example =
    job_row-said plain_js client (moment calm empty) form (payload_of "noop") 10 (pos 5) refl
      client-TakesTexts refl refl refl

abbrev credentials : LoginForm
credentials = record { email = "admin@demo.com"; password = "demo"; error = ""; loading = false }

abbrev visitor : Browser
visitor = record { token = none; pathname = "/login" }

abbrev answer : Json
answer = obj (field "token" (str "t0ken") end)

handle_login-Access_example :
    let (after, inside) = handle_login plain_js credentials (replied 200 (some answer)) visitor in
    (after ≡ record credentials { loading = false; error = "" })
    × (inside.pathname ≡ "/")
    × (guard (on "/queues" inside) ≡ ready)
    × (guard (on "/login" inside) ≡ replaced_by "/")
    × (guard (on "/queues" (sign_out inside)) ≡ replaced_by "/login")
    × (guard (sign_out inside) ≡ ready)
unfolding read_member
handle_login-Access_example =
    handle_login-Access plain_js credentials answer visitor "t0ken" "/queues" refl
      (ne_of_str_eq "t0ken" "" refl) (ne_of_str_eq "/queues" "/login" refl)

edited-intended_example :
    (edited plain_js []
      (Edit.name "a" ∷ Edit.priority "3" ∷ Edit.name "a b" ∷ [])
      (NewQueue.initial [])).slug
    ≡ intended plain_js (Edit.name "a" ∷ Edit.priority "3" ∷ Edit.name "a b" ∷ []) ""
edited-intended_example =
    edited-intended plain_js [] (Edit.name "a" ∷ Edit.priority "3" ∷ Edit.name "a b" ∷ [])

abbrev row : String → Job
row status = record {
  id = "job-7";
  queue_id = "queue-10";
  status = status;
  priority = pos 5;
  payload = null;
  idempotency_key = none;
  next_run_at = none;
  attempts = 1;
  max_attempts = pos 3;
  retry_policy_id = none;
  worker_id = none;
  claimed_at = none;
  lease_expires_at = none;
  completed_at = none;
  failed_at = none;
  error_message = none;
  cron_expr = none;
  batch_id = none;
  created_at = "2026-01-01T00:00:00.000Z";
  updated_at = "2026-01-01T00:00:00.000Z";
}

abbrev page : List Job
page = row "completed" ∷ row "dead_letter" ∷ []

abbrev pages : Pages
pages = (1000, page) ∷ (4000, row "completed" ∷ page) ∷ []

observed_pulse_example :
    let all = log Provider.initial.seen pages in
    ((observed pages Provider.initial).pulse_events ≡ drop (length all - 50) all)
    × (length (observed pages Provider.initial).pulse_events ≤ 50)
    × (count (is_of completed) all ≡ rises completed_in 0 pages)
    × (count (is_of failed) all ≡ rises failed_in 0 pages)
observed_pulse_example = observed_pulse pages Provider.initial (omega arith)

-- The second page shows one more completed job.
pages_rise : rises completed_in 0 pages ≡ 2
pages_rise = refl
