-- ===== src/Console/Api/Sessions.antt =====
-- What the console makes of the API's answers.
use job_scheduler.Prelude.{
  ℕ, ◌≤◌, ◌<◌, ◌≡◌, refl, ap, String, Bool-cases, inl, inr, true, not, Option, none, some, ◌==◌,
  ◌&&◌, str_eq_iff, if◌then◌else◌, select, arith,
}
use job_scheduler.Json.{Json, Js}
use job_scheduler.Db.{Db}
use job_scheduler.Db.Client.{Client}
use job_scheduler.Db.Sql.{World, Moment, ok, throws}
use job_scheduler.Db.Served.{ServedFrom}
use job_scheduler.Http.{Body, Response, json}
use job_scheduler.Worker.Tick.{select_unpaused}
use job_scheduler.Router.Queues.{is_addressed, pause_queue}
use job_scheduler.Router.Queues.Pausing.{pause_hides}
use job_scheduler.Console.Api
use job_scheduler.Console.Api.{
  Browser, Reply, unreachable, replied, is_ok, expire, clear_token, receive,
}

-- The session behind an answer with this status.
abbrev pub session_after : ℕ → Browser → Browser
session_after status b = if status == 401 then record { token = none; pathname = "/login" } else b

expire-eq : (b : Browser) → expire b ≡ record { token = none; pathname = "/login" }
unfolding expire clear_token
expire-eq b = ground (arith, str_eq_iff b.pathname "/login")

-- A request of a session ends it exactly at a 401: the token is then gone and the page is the login
-- page. A request that succeeds had an answer with a status from 200 to 299.
pub receive_session :
    (js : Js) (status : ℕ) (body : Option Json) (b : Browser)
    → let (result, after) = receive js true (replied status body) b in
      (after ≡ session_after status b)
      × ((v : Json) → result ≡ ok v → (200 ≤ status) × (status < 300))
unfolding receive
receive_session js status body b = elim (Bool-cases (status == 401)) [
  | inl e ↦ rw (e, receive) (expire-eq b, λ v h. cc)
  | inr e ↦ elim (Bool-cases (is_ok status)) [
    | inl f ↦ rw (e, f, receive) (refl, λ v h. ground arith)
    | inr f ↦ rw (e, f, receive) (refl, λ v h. cc)
  ]
]

-- A response as `fetch` gives it: `new Response(null, …)` has no body, and another body is JSON.
abbrev content : (Body → Json) → Body → Option Json
content print Body.nothing = none
content print body = some (print body)

abbrev pub reply_of : (Body → Json) → Response → Reply
reply_of print response = replied response.status (content print response.body)

-- If its statement is served, a pause from the console takes the queue from those that the worker
-- finds to run, and yet the request of the console fails, with the message of parsing an empty text.
pub pause_misreported :
    (w : World) (c : Client) (db : Db) (org queue : String) (id org_id : ℕ) (m : Moment)
    (print : Body → Json) (b : Browser)
    → ServedFrom w db.statements 1
    → c.uuid_param queue ≡ ok id
    → c.uuid_param org ≡ ok org_id
    → (response : Response) × (after : Db) × (pause_queue w c org queue db ≡ (ok response, after))
      × ((select_unpaused m after).0
          ≡ ok (select (λ q. not q.paused && not (is_addressed id org_id db q)) db.queues))
      × (receive w.js (Api.pause_queue queue).auth (reply_of print response) b
          ≡ (throws (w.js.syntax_error ""), b))
unfolding receive Api.pause_queue
pause_misreported w c db org queue id org_id m print b hs hq ho =
    let (answered, hidden, _) = pause_hides w c db org queue id org_id m hs hq ho in
    (
      json Body.nothing 204,
      (pause_queue w c org queue db).1,
      ap (λ r. (r, (pause_queue w c org queue db).1)) answered,
      hidden,
      refl,
    )
