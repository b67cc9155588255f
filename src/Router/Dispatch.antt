-- ===== src/Router/Dispatch.antt =====
-- `handleApi` of dashboard/src/server/router.ts.
pub mod Guarded
use job_scheduler.Prelude.{
  ℕ, String, Bool, true, false, Option, none, some, List, [], ◌∷◌, str_eq, if◌then◌else◌, includes,
  join_path,
}
use job_scheduler.Db.{Db}
use job_scheduler.Db.Sql.{World, Result, ok, throws, Action, pure, lift, ◌>>=◌, ◌>>◌}
use job_scheduler.Auth.{Claims, claims_from_request}
use job_scheduler.Http.{Response, Body, json, error, unauthorized}
use job_scheduler.Worker.Tick.{run_worker_tick}
use job_scheduler.Router.{Server, Request}
use job_scheduler.Router.Paths
use job_scheduler.Router.Paths.{Endpoint, route}
use job_scheduler.Router.Login.{login, get_sql}
use job_scheduler.Router.Projects.{list_projects, create_project, create_queue}
use job_scheduler.Router.Queues.{list_queues, pause_queue, resume_queue, update_queue}
use job_scheduler.Router.Stats.{queue_stats}
use job_scheduler.Router.Submit.{submit_job}
use job_scheduler.Router.Listing.{list_jobs, get_job}
use job_scheduler.Router.Retry.{retry_job}
use job_scheduler.Router.Records.{job_executions, job_logs, list_workers, list_dead_letters}

-- `runWorkerTickNow()`; its effect on the scheduler's variables is in Scheduler.
abbrev pub pulse : World → Action Response
pulse w = do processed ← run_worker_tick w; pure (json (Body.tick processed) 200)

-- The body of the handler that a caller of the organization reaches. A login does not come here.
unfoldable pub serve : Server → String → Request → Endpoint → Action Response
serve s org r Endpoint.login = pure (error "not found" 404 "NOT_FOUND")
serve s org r Endpoint.list_projects = list_projects s.world s.client org
serve s org r Endpoint.create_project = create_project s.world s.client org r.body
serve s org r Endpoint.list_queues = list_queues s.world s.client org
serve s org r Endpoint.create_queue = create_queue s.world s.client org r.body
serve s org r (Endpoint.queue_stats id) = queue_stats s.world s.client org id
serve s org r (Endpoint.pause_queue id) = pause_queue s.world s.client org id
serve s org r (Endpoint.resume_queue id) = resume_queue s.world s.client org id
serve s org r (Endpoint.update_queue id) = update_queue s.world s.client org id r.body
serve s org r (Endpoint.submit_job id) = submit_job s.world s.client org id r.body
serve s org r Endpoint.pulse = pulse s.world
serve s org r Endpoint.list_jobs = list_jobs s.world s.client org r.status_param r.queue_id_param
serve s org r (Endpoint.job_executions id) = job_executions s.world s.client org id
serve s org r (Endpoint.job_logs id) = job_logs s.world s.client org id
serve s org r (Endpoint.retry_job id) = retry_job s.world s.client org id
serve s org r (Endpoint.get_job id) = get_job s.world s.client org id
serve s org r Endpoint.list_workers = list_workers s.world
serve s org r Endpoint.list_dead_letters = list_dead_letters s.world s.client org
serve s org r Endpoint.unknown = pure (error "not found" 404 "NOT_FOUND")

abbrev pub with_claims : Server → Request → Endpoint → Option Claims → Action Response
with_claims s r e none = pure unauthorized
with_claims s r e (some claims) = lift (get_sql s.env) >> serve s claims.org_id r e

-- `requireAuth`, and what stands behind it.
unfoldable pub serve_authorized : Server → Request → Endpoint → Action Response
unfolding serve claims_from_request get_sql
serve_authorized s r e =
    with_claims s r e (claims_from_request s.jose s.env s.world.js s.seconds r.authorization)

-- The body of the try block.
unfoldable pub attempt : Server → Request → Endpoint → Action Response
unfolding serve_authorized login
attempt s r Endpoint.login = login s r.body
attempt s r e = serve_authorized s r e

-- The catch clause; every exception is an Error.
abbrev pub recover : Result Response → Response
recover (ok response) = response
recover (throws message) =
    if includes "DATABASE_URL" message
    then error message 503 "UNAVAILABLE"
    else error message 500 "INTERNAL"

unfoldable pub handle_api : Server → Request → Db → Response × Db
unfolding attempt route includes
handle_api s r db =
    let (result, after) = attempt s r (route r.method (join_path r.path)) db in
    (recover result, after)
