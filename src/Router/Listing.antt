-- ===== src/Router/Listing.antt =====
-- `GET jobs` and `GET jobs/:id` of dashboard/src/server/router.ts.
pub mod Newest
use job_scheduler.Prelude.{
  ℕ, String, Bool, true, Option, none, some, List, ◌==◌, ◌&&◌, ◌||◌, leb, str_eq, select,
  select_one, take, sort_by,
}
use job_scheduler.Db.{
  Db, Job, JobStatus, queued, scheduled, claimed, running, completed, failed, dead_letter,
}
use job_scheduler.Db.Client.{Client, is_job_in}
use job_scheduler.Db.Sql.{
  World, Result, ok, throws, Query, Action, statement, pure, lift, ◌>>=◌, ◌>>◌, ◌>>?◌,
}
use job_scheduler.Auth.{or_else}
use job_scheduler.Http.{Response, Body, json, error, map_job, map_jobs}
use job_scheduler.Router.{request_tick}

-- `j.status::text`
abbrev pub status_text : JobStatus → String
status_text queued = "queued"
status_text scheduled = "scheduled"
status_text claimed = "claimed"
status_text running = "running"
status_text completed = "completed"
status_text failed = "failed"
status_text dead_letter = "dead_letter"

-- `queueId IS NULL OR j.queue_id = queueId`
abbrev pub is_of_queue : Option ℕ → Job → Bool
is_of_queue none j = true
is_of_queue (some id) j = j.queue_id == id

-- The WHERE clause of the listing.
unfoldable pub is_listed : ℕ → String → Option ℕ → Db → Job → Bool
is_listed org_id status queue_id db j =
    is_job_in org_id db j
    && (str_eq status "" || str_eq (status_text j.status) status)
    && is_of_queue queue_id j

-- `ORDER BY j.created_at DESC`
unfoldable pub is_newer : Job → Job → Bool
is_newer a b = leb b.created_at a.created_at

unfoldable pub listing : ℕ → String → Option ℕ → Db → List Job
listing org_id status queue_id db =
    take 100 (sort_by is_newer (select (is_listed org_id status queue_id db) db.jobs))

-- `queueId ?? null` as a UUID.
abbrev pub optional_uuid : Client → Option String → Result (Option ℕ)
optional_uuid c none = ok none
optional_uuid c (some s) = c.uuid_param s >>? λ id. ok (some id)

unfoldable pub select_jobs : Client → String → String → Option String → Query (List Job)
unfolding listing
select_jobs c org status queue m = do
  org_id ← lift (c.uuid_param org)
  queue_id ← lift (optional_uuid c queue)
  λ db. (ok (listing org_id status queue_id db), db)

-- The search parameters `status` and `queue_id`, `none` where the URL has none.
unfoldable pub list_jobs : World → Client → String → Option String → Option String → Action Response
unfolding select_jobs map_jobs
list_jobs w c org status queue = do
  request_tick
  rows ← statement w (select_jobs c org (or_else status "") queue)
  items ← lift (map_jobs w.js rows)
  pure (json (Body.jobs items) 200)

unfoldable pub select_job : Client → String → String → Query (Option Job)
select_job c job org m = do
  id ← lift (c.uuid_param job)
  org_id ← lift (c.uuid_param org)
  λ db. (ok (select_one (λ j. (j.id == id) && is_job_in org_id db j) db.jobs), db)

abbrev pub show_job : World → Option Job → Action Response
show_job w none = pure (error "not found" 404 "ERROR")
show_job w (some row) = do v ← lift (map_job w.js row); pure (json (Body.job v) 200)

unfoldable pub get_job : World → Client → String → String → Action Response
unfolding select_job map_job
get_job w c org job = do row ← statement w (select_job c job org); show_job w row
