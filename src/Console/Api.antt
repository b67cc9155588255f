-- ===== src/Console/Api.antt =====
-- dashboard/src/lib/api.ts: the requests of the console, and what becomes of their answers.
pub mod Reach
pub mod Sessions
use job_scheduler.Prelude.{
  ℕ, ◌+◌, ℤ, pos, String, Bool, true, false, not, Option, none, some, List, [], ◌∷◌, ◌==◌, ◌&&◌,
  leb, ltb, str_eq, if◌then◌else◌, ◌<>◌,
}
use job_scheduler.Json.{Json, null, Js, Fields, end, field, str, num, obj, truthy, member, to_text}
use job_scheduler.Db.Sql.{Result, ok, throws}

-- An object as JSON.stringify prints it: a key that is undefined is left out.
unfoldable pub compact : List (String × Option Json) → Fields
compact [] = end
compact ((k, none) ∷ rest) = compact rest
compact ((k, some v) ∷ rest) = field k v (compact rest)

-- localStorage's token, and window.location.pathname.
pub record Browser : Type 0 where
  pub token : Option String
  pub pathname : String

-- `getToken()`, where the empty text counts as none.
unfoldable pub has_token : Browser → Bool
has_token b = elim b.token [ none ↦ false | some token ↦ not (str_eq token "") ]

unfoldable pub set_token : String → Browser → Browser
set_token token b = record b { token = some token }

unfoldable pub clear_token : Browser → Browser
clear_token b = record b { token = none }

-- The arguments of `request`: what follows /api, the method (GET if none is given), whether a 401
-- ends the session, and the body.
pub record Call : Type 0 where
  pub path : String
  pub method : String
  pub auth : Bool
  pub body : Option Json

-- What `fetch` is given.
pub record Sent : Type 0 where
  pub url : String
  pub method : String
  pub authorization : Option String
  pub body : Option Json

abbrev bearer : Option String → Option String
bearer none = none
bearer (some token) = if str_eq token "" then none else some ("Bearer " <> token)

unfoldable pub prepare : Browser → Call → Sent
prepare b c = record {
  url = "/api" <> c.path;
  method = c.method;
  authorization = bearer b.token;
  body = c.body;
}

-- What `fetch` gives: no answer, or a status and a body, `none` if that is not JSON.
pub data Reply : Type 0 where
  unreachable : Reply
  replied : (status : ℕ) (body : Option Json) → Reply

abbrev cannot_reach : String
cannot_reach = "Cannot reach the API. Check your connection or redeploy the Vercel app."

abbrev expired : String
expired = "Session expired. Sign in again."

-- `res.ok`
abbrev pub is_ok : ℕ → Bool
is_ok status = leb 200 status && ltb status 300

unfoldable pub expire : Browser → Browser
unfolding clear_token
expire b =
    if str_eq b.pathname "/login"
    then clear_token b
    else record (clear_token b) { pathname = "/login" }

-- `body.error || `HTTP ${res.status}``, with `{}` for a body that is not JSON; reading a field of null
-- throws a TypeError in its place.
unfoldable pub failure_text : Js → ℕ → Option Json → String
unfolding member truthy to_text
failure_text js status none = "HTTP " <> js.text_of (num (pos status))
failure_text js status (some null) = js.null_error "error"
failure_text js status (some body) =
    if truthy (member "error" body)
    then to_text js (member "error" body)
    else "HTTP " <> js.text_of (num (pos status))

abbrev unexpected_end : Js → String
unexpected_end js = js.syntax_error ""

-- `return res.json()`
abbrev parsed : Js → Option Json → Result Json
parsed js none = throws (unexpected_end js)
parsed js (some v) = ok v

-- `request` behind the `fetch`.
unfoldable pub receive : Js → Bool → Reply → Browser → Result Json × Browser
unfolding expire failure_text
receive js auth unreachable b = (throws cannot_reach, b)
receive js auth (replied status body) b =
    if status == 401 && auth
    then (throws expired, expire b)
    else if is_ok status
    then (parsed js body, b)
    else (throws (failure_text js status body), b)

abbrev get : String → Call
get path = record { path = path; method = "GET"; auth = true; body = none }

abbrev post : String → Option Json → Call
post path body = record { path = path; method = "POST"; auth = true; body = body }

unfoldable pub login : String → String → Call
login email password = record {
  path = "/auth/login";
  method = "POST";
  auth = false;
  body = some (obj (field "email" (str email) (field "password" (str password) end)));
}

unfoldable pub list_projects : Call
list_projects = get "/projects"

unfoldable pub create_project : Json → Call
create_project given = post "/projects" (some given)

unfoldable pub list_queues : Call
list_queues = get "/queues"

unfoldable pub create_queue : Json → Call
create_queue given = post "/queues" (some given)

unfoldable pub get_queue : String → Call
get_queue id = get ("/queues/" <> id)

unfoldable pub get_queue_stats : String → Call
get_queue_stats id = get ("/queues/" <> (id <> "/stats"))

unfoldable pub update_queue : String → Json → Call
update_queue id given = record {
  path = "/queues/" <> id;
  method = "PUT";
  auth = true;
  body = some given;
}

unfoldable pub pause_queue : String → Call
pause_queue id = post ("/queues/" <> (id <> "/pause")) none

unfoldable pub resume_queue : String → Call
resume_queue id = post ("/queues/" <> (id <> "/resume")) none

-- `qs ? `?${qs}` : ""`
abbrev query : Js → List (String × String) → String
query js params = let text = js.query_text params in if str_eq text "" then "" else "?" <> text

unfoldable pub list_jobs : Js → List (String × String) → Call
list_jobs js params = get ("/jobs" <> query js params)

unfoldable pub list_queue_jobs : Js → String → List (String × String) → Call
list_queue_jobs js id params = get ("/queues/" <> (id <> ("/jobs" <> query js params)))

unfoldable pub get_job : String → Call
get_job id = get ("/jobs/" <> id)

unfoldable pub get_job_executions : String → Call
get_job_executions id = get ("/jobs/" <> (id <> "/executions"))

unfoldable pub get_job_logs : String → Call
get_job_logs id = get ("/jobs/" <> (id <> "/logs"))

unfoldable pub retry_job : String → Call
retry_job id = post ("/jobs/" <> (id <> "/retry")) none

unfoldable pub enqueue_job : String → Json → Call
enqueue_job id given = post ("/queues/" <> (id <> "/jobs")) (some given)

unfoldable pub list_workers : Call
list_workers = get "/workers"

unfoldable pub worker_pulse : Call
worker_pulse = get "/worker/pulse"

unfoldable pub list_dlq : Call
list_dlq = get "/dlq"
