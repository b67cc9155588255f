-- ===== src/Console/QueueDrawer.antt =====
-- dashboard/src/app/queues/QueuesView.tsx: the drawer of a queue, and when the page opens its form.
use job_scheduler.Prelude.{
  ℕ, ◌*◌, ℤ, pos, String, Bool, true, false, Option, none, some, List, [], ◌∷◌, leb, ltb, str_eq,
  if◌then◌else◌,
}
use job_scheduler.Json.{Json, Js, str, num, obj}
use job_scheduler.Db.Sql.{Result, ok, throws}
use job_scheduler.Http.{Ratio}
use job_scheduler.Console.Api
use job_scheduler.Console.Api.{Browser, Call, Reply, compact, receive}
use job_scheduler.Console.Data.{Queue}
use job_scheduler.Console.Submit.{given, number, parse_or}

pub record QueueDrawer : Type 0 where
  pub name : String
  pub concurrency : String
  pub priority : String
  pub saving : Bool
  pub error : String

-- `queue.concurrency_limit?.toString() ?? ""`
abbrev limit_text : Js → Option ℤ → String
limit_text js none = ""
limit_text js (some n) = js.text_of (num n)

unfoldable pub initial : Js → Queue → QueueDrawer
initial js q = record {
  name = q.name;
  concurrency = limit_text js q.concurrency_limit;
  priority = js.text_of (num q.priority_default);
  saving = false;
  error = "";
}

-- The name as it was typed: this form does not trim it.
unfoldable pub body : Js → QueueDrawer → Json
unfolding compact parse_or
body js d = obj (
    compact (
      ("name", some (str d.name))
      ∷ ("priority_default", some (num (parse_or js d.priority (pos 0))))
      ∷ given "concurrency_limit" d.concurrency (number (js.parse_int d.concurrency))
      ∷ []))

-- What else the handlers do: `onUpdated()` and `onClose()`.
pub data Act : Type 0 where
  updated closed : Act

unfoldable pub settle_save : Result Json → QueueDrawer → QueueDrawer × List Act
settle_save (throws message) d = (record d { error = message; saving = false }, [])
settle_save (ok _) d = (record d { saving = false }, updated ∷ closed ∷ [])

unfoldable pub save : Js → Queue → QueueDrawer → Reply → Browser → QueueDrawer × List Act × Browser
unfolding receive settle_save Api.update_queue
save js q d reply b =
    let (result, after) = receive js (Api.update_queue q.id (body js d)).auth reply b in
    let (e, acts) = settle_save result (record d { saving = true; error = "" }) in (e, acts, after)

unfoldable pub toggle_call : Queue → Call
unfolding Api.resume_queue Api.pause_queue
toggle_call q = if q.is_paused then Api.resume_queue q.id else Api.pause_queue q.id

abbrev acted : Result Json × Browser → Result (List Act) × Browser
acted (throws message, b) = (throws message, b)
acted (ok _, b) = (ok (updated ∷ closed ∷ []), b)

-- togglePause, which catches nothing.
unfoldable pub toggle_pause : Js → Queue → Reply → Browser → Result (List Act) × Browser
unfolding receive toggle_call
toggle_pause js q reply b = acted (receive js (toggle_call q).auth reply b)

abbrev or_zero : Option ℕ → ℕ
or_zero none = 0
or_zero (some n) = n

abbrev part_of : ℕ → ℕ → Ratio
part_of in_flight limit =
    if leb limit in_flight
    then record { numerator = pos 100; denominator = 1 }
    else record { numerator = pos (in_flight * 100); denominator = limit }

abbrev percent_of : ℕ → Option ℤ → Ratio
percent_of in_flight (some (pos limit)) =
    if ltb 0 limit then part_of in_flight limit else record { numerator = pos 0; denominator = 1 }
percent_of in_flight _ = record { numerator = pos 0; denominator = 1 }

-- `limit > 0 ? Math.min(100, (inFlight / limit) * 100) : 0`
unfoldable pub percent : Option ℕ → Queue → Ratio
percent depth q = percent_of (or_zero depth) q.concurrency_limit

abbrev is_one : Option String → Bool
is_one none = false
is_one (some text) = str_eq text "1"

-- The effects on `[searchParams]` and on `[createQueueRequest]`.
unfoldable pub follow_search : Option String → Bool → Bool
follow_search create is_open = if is_one create then true else is_open

unfoldable pub follow_request : ℕ → Bool → Bool
follow_request request is_open = if ltb 0 request then true else is_open
