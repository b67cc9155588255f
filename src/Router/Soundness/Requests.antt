-- ===== src/Router/Soundness/Requests.antt =====
-- `handleApi` of dashboard/src/server/router.ts on sound tables: every endpoint, whatever the request
-- and whatever becomes of the statements.
use job_scheduler.Prelude.{arith, String, Option, none, some, ◌||◌, str_eq, join_path}
use job_scheduler.Json.{Json, member, read_member, text_or_empty}
use job_scheduler.Auth.{Claims, claims_from_request, demo_auth_enabled}
use job_scheduler.Db.{Db, User}
use job_scheduler.Db.Sql.{World, Result, statement}
use job_scheduler.Db.Ensures.{Ensures-bind, Ensures-pure, Ensures-if, Ensures-after}
use job_scheduler.Http.{Body, json}
use job_scheduler.Setup.{select_user, or_admin, resolve_demo_user}
use job_scheduler.Worker.Tick.{run_worker_tick}
use job_scheduler.Worker.Tick.Soundness.{run_worker_tick-IsSound}
use job_scheduler.Worker.Tick.Refinement.{run_worker_tick-Lives}
use job_scheduler.Worker.Program.Growing.{run_worker_tick-grows}
use job_scheduler.Worker.Lifecycle.{All-Rows}
use job_scheduler.Router.{Server, Request}
use job_scheduler.Router.Paths.{Endpoint, route}
use job_scheduler.Router.Submit.{read}
use job_scheduler.Router.Login.{find_user, answer_login, login_with, login, get_sql}
use job_scheduler.Router.Dispatch.{pulse, serve, with_claims, serve_authorized, attempt, handle_api}
use job_scheduler.Router.Soundness.{DrawsOnce, IsReady, each, Keeps, Keeps-quiet, Keeps-lift}
use job_scheduler.Router.Soundness.Reads.{
  read-IsQuiet, list_projects-Keeps, list_queues-Keeps, queue_stats-Keeps, list_jobs-Keeps,
  get_job-Keeps, job_executions-Keeps, job_logs-Keeps, list_workers-Keeps, list_dead_letters-Keeps,
}
use job_scheduler.Router.Soundness.Writes.{
  create_project-Keeps, create_queue-Keeps, pause_queue-Keeps, resume_queue-Keeps,
  update_queue-Keeps,
}
use job_scheduler.Router.Soundness.Retries.{retry_job-Keeps}
use job_scheduler.Router.Soundness.Submits.{submit_job-Keeps}

select_user-Keeps : (w : World) (email : String) → Keeps w (statement w (select_user email))
select_user-Keeps w email = Keeps-quiet w (select_user email) (λ m. read-IsQuiet _)

or_admin-Keeps : (w : World) (found : Option User) → Keeps w (or_admin w found)
or_admin-Keeps w none = select_user-Keeps w "admin@demo.com"
or_admin-Keeps w (some user) = Ensures-pure _ (λ _ s. s)

find_user-Keeps : (s : Server) (email : String) → Keeps s.world (find_user s email)
unfolding find_user resolve_demo_user
find_user-Keeps s email =
    Ensures-if (demo_auth_enabled s.env)
      (Ensures-bind _ _ (select_user-Keeps s.world email) (or_admin-Keeps s.world))
      (select_user-Keeps s.world email)

answer_login-Keeps : (s : Server) (found : Option User) → Keeps s.world (answer_login s found)
answer_login-Keeps s none = Ensures-pure _ (λ _ h. h)
answer_login-Keeps s (some user) = Ensures-pure _ (λ _ h. h)

login_with-Keeps :
    (s : Server) (email password : String) → Keeps s.world (login_with s email password)
unfolding login_with
login_with-Keeps s email password =
    Ensures-if (str_eq email "" || str_eq password "") (Ensures-pure _ (λ _ h. h)) (
      Keeps-lift (get_sql s.env) _
        λ _. Ensures-bind _ _ (find_user-Keeps s email) (answer_login-Keeps s))

login-Keeps : (s : Server) (request : Result Json) → Keeps s.world (login s request)
unfolding login
login-Keeps s request = Keeps-lift request _ λ body.
    Keeps-lift (read (read_member s.world.js "email" body)) _ λ email.
      login_with-Keeps s (s.world.js.trim (text_or_empty s.world.js email))
        (text_or_empty s.world.js (member "password" body))

-- A tick keeps the ids of jobs and sends statements, so the ids still to be drawn stay unused.
pub run_worker_tick-IsReady :
    (w : World) (db : Db) → IsReady w db → IsReady w (run_worker_tick w db).1
run_worker_tick-IsReady w db h = record {
  sound = run_worker_tick-IsSound w db h.sound;
  unused = λ n le.
      All-Rows (λ x y l. l.same_job) (w.uuid n) db.jobs _
        (run_worker_tick-Lives w db h.sound.job_ids)
        (h.unused n (let grows = run_worker_tick-grows w db in omega (arith, grows, le)));
}

pub run_worker_tick-Keeps : (w : World) → Keeps w (run_worker_tick w)
run_worker_tick-Keeps w = record {
  at = λ db h. each (IsReady w) (run_worker_tick w db).0 _ (run_worker_tick-IsReady w db h);
}

pulse-Keeps : (w : World) → Keeps w (pulse w)
pulse-Keeps w =
    Ensures-bind (run_worker_tick w) _ (run_worker_tick-Keeps w)
      (λ n. Ensures-pure (json (Body.tick n) 200) (λ _ h. h))

serve-Keeps :
    (s : Server) (org : String) (r : Request) (e : Endpoint)
    → DrawsOnce s.world
    → Keeps s.world (serve s org r e)
unfolding serve
serve-Keeps s org r Endpoint.login once = (Ensures-pure _ (λ _ h. h))
serve-Keeps s org r Endpoint.list_projects once = (list_projects-Keeps s.world s.client org)
serve-Keeps s org r Endpoint.create_project once =
    (create_project-Keeps s.world s.client org r.body)
serve-Keeps s org r Endpoint.list_queues once = (list_queues-Keeps s.world s.client org)
serve-Keeps s org r Endpoint.create_queue once = (create_queue-Keeps s.world s.client org r.body)
serve-Keeps s org r (Endpoint.queue_stats id) once = (queue_stats-Keeps s.world s.client org id)
serve-Keeps s org r (Endpoint.pause_queue id) once = (pause_queue-Keeps s.world s.client org id)
serve-Keeps s org r (Endpoint.resume_queue id) once = (resume_queue-Keeps s.world s.client org id)
serve-Keeps s org r (Endpoint.update_queue id) once =
    (update_queue-Keeps s.world s.client org id r.body)
serve-Keeps s org r (Endpoint.submit_job id) once =
    submit_job-Keeps s.world s.client org id r.body once
serve-Keeps s org r Endpoint.pulse once = (pulse-Keeps s.world)
serve-Keeps s org r Endpoint.list_jobs once =
    (list_jobs-Keeps s.world s.client org r.status_param r.queue_id_param)
serve-Keeps s org r (Endpoint.job_executions id) once =
    (job_executions-Keeps s.world s.client org id)
serve-Keeps s org r (Endpoint.job_logs id) once = (job_logs-Keeps s.world s.client org id)
serve-Keeps s org r (Endpoint.retry_job id) once = (retry_job-Keeps s.world s.client org id)
serve-Keeps s org r (Endpoint.get_job id) once = (get_job-Keeps s.world s.client org id)
serve-Keeps s org r Endpoint.list_workers once = (list_workers-Keeps s.world)
serve-Keeps s org r Endpoint.list_dead_letters once = (list_dead_letters-Keeps s.world s.client org)
serve-Keeps s org r Endpoint.unknown once = (Ensures-pure _ (λ _ h. h))

with_claims-Keeps :
    (s : Server) (r : Request) (e : Endpoint) (found : Option Claims)
    → DrawsOnce s.world
    → Keeps s.world (with_claims s r e found)
with_claims-Keeps s r e none once = (Ensures-pure _ (λ _ h. h))
with_claims-Keeps s r e (some claims) once =
    Keeps-lift (get_sql s.env) _ (λ _. serve-Keeps s claims.org_id r e once)

authorized-Keeps :
    (s : Server) (r : Request) (e : Endpoint)
    → DrawsOnce s.world
    → Keeps s.world (serve_authorized s r e)
unfolding serve_authorized
authorized-Keeps s r e once =
    with_claims-Keeps s r e (claims_from_request s.jose s.env s.world.js s.seconds r.authorization)
      once

attempt-Keeps :
    (s : Server) (r : Request) (e : Endpoint) → DrawsOnce s.world → Keeps s.world (attempt s r e)
unfolding attempt
attempt-Keeps s r Endpoint.login once = (login-Keeps s r.body)
attempt-Keeps s r Endpoint.list_projects once = authorized-Keeps s r Endpoint.list_projects once
attempt-Keeps s r Endpoint.create_project once = authorized-Keeps s r Endpoint.create_project once
attempt-Keeps s r Endpoint.list_queues once = authorized-Keeps s r Endpoint.list_queues once
attempt-Keeps s r Endpoint.create_queue once = authorized-Keeps s r Endpoint.create_queue once
attempt-Keeps s r (Endpoint.queue_stats id) once =
    authorized-Keeps s r (Endpoint.queue_stats id) once
attempt-Keeps s r (Endpoint.pause_queue id) once =
    authorized-Keeps s r (Endpoint.pause_queue id) once
attempt-Keeps s r (Endpoint.resume_queue id) once =
    authorized-Keeps s r (Endpoint.resume_queue id) once
attempt-Keeps s r (Endpoint.update_queue id) once =
    authorized-Keeps s r (Endpoint.update_queue id) once
attempt-Keeps s r (Endpoint.submit_job id) once = authorized-Keeps s r (Endpoint.submit_job id) once
attempt-Keeps s r Endpoint.pulse once = authorized-Keeps s r Endpoint.pulse once
attempt-Keeps s r Endpoint.list_jobs once = authorized-Keeps s r Endpoint.list_jobs once
attempt-Keeps s r (Endpoint.job_executions id) once =
    authorized-Keeps s r (Endpoint.job_executions id) once
attempt-Keeps s r (Endpoint.job_logs id) once = authorized-Keeps s r (Endpoint.job_logs id) once
attempt-Keeps s r (Endpoint.retry_job id) once = authorized-Keeps s r (Endpoint.retry_job id) once
attempt-Keeps s r (Endpoint.get_job id) once = authorized-Keeps s r (Endpoint.get_job id) once
attempt-Keeps s r Endpoint.list_workers once = authorized-Keeps s r Endpoint.list_workers once
attempt-Keeps s r Endpoint.list_dead_letters once =
    authorized-Keeps s r Endpoint.list_dead_letters once
attempt-Keeps s r Endpoint.unknown once = authorized-Keeps s r Endpoint.unknown once

-- Whatever the request, whoever sends it and whichever of its statements fail.
pub handle_api-IsReady :
    (s : Server) (r : Request) (db : Db)
    → DrawsOnce s.world
    → IsReady s.world db
    → IsReady s.world (handle_api s r db).1
unfolding handle_api
handle_api-IsReady s r db once h =
    let e = route r.method (join_path r.path) in
    Ensures-after (attempt s r e) db (attempt-Keeps s r e once) h
