-- ===== src/Router/Soundness/Reads.antt =====
-- The handlers of dashboard/src/server/router.ts that only read.
use job_scheduler.Prelude.{ℕ, refl, String, Option, none, some}
use job_scheduler.Db.{Db, Job, Queue}
use job_scheduler.Db.Client.{Client}
use job_scheduler.Db.Sql.{World, Moment, Result}
use job_scheduler.Db.Ensures.{Ensures-bind, Ensures-pure}
use job_scheduler.Http.{Body, json, map_job, map_jobs}
use job_scheduler.Auth.{or_else}
use job_scheduler.Router.{request_tick}
use job_scheduler.Router.Projects.{select_projects, list_projects}
use job_scheduler.Router.Queues.{select_queues, list_queues}
use job_scheduler.Router.Stats.{select_depth, select_counts, queue_stats, answer_stats, Counts}
use job_scheduler.Router.Submit.{select_queue}
use job_scheduler.Router.Listing.{
  select_jobs, optional_uuid, list_jobs, select_job, get_job, show_job,
}
use job_scheduler.Router.Records.{
  select_executions, job_executions, select_logs, job_logs, select_workers, list_workers,
  select_dead_letters, list_dead_letters,
}
use job_scheduler.Router.Soundness.{
  IsQuiet, IsQuiet-lift, Keeps, Keeps-quiet, Keeps-lift, request_tick-Keeps,
}

-- A query that only reads.
pub read-IsQuiet : {A : Type 0} (f : Db → Result A) → IsQuiet (λ db. (f db, db))
read-IsQuiet f = record {
  jobs = λ db. refl;
  heartbeats = λ db. refl;
  dead_letters = λ db. refl;
  statements = λ db. refl;
}

-- A statement that only reads behind two conversions, and an answer from its rows.
pub list_projects-Keeps : (w : World) (c : Client) (org : String) → Keeps w (list_projects w c org)
unfolding list_projects select_projects
list_projects-Keeps w c org =
    Ensures-bind _ _
      (Keeps-quiet w (select_projects c org)
        (λ m. IsQuiet-lift (c.uuid_param org) _ (λ _. read-IsQuiet _)))
      (λ rows. Ensures-pure _ (λ _ s. s))

pub list_queues-Keeps : (w : World) (c : Client) (org : String) → Keeps w (list_queues w c org)
unfolding list_queues select_queues
list_queues-Keeps w c org =
    Ensures-bind _ _
      (Keeps-quiet w (select_queues c org)
        (λ m. IsQuiet-lift (c.uuid_param org) _ (λ _. read-IsQuiet _)))
      (λ rows. Ensures-pure _ (λ _ s. s))

pub select_queue-IsQuiet :
    (c : Client) (queue org : String) (m : Moment) → IsQuiet (select_queue c queue org m)
unfolding select_queue
select_queue-IsQuiet c queue org m =
    IsQuiet-lift (c.uuid_param queue) _
      (λ _. IsQuiet-lift (c.uuid_param org) _ (λ _. read-IsQuiet _))

answer_stats-Keeps :
    (w : World) (depth : ℕ) (n : Counts) (found : Option Queue)
    → Keeps w (answer_stats depth n found)
answer_stats-Keeps w depth n none = Ensures-pure _ (λ _ s. s)
answer_stats-Keeps w depth n (some q) = Ensures-pure _ (λ _ s. s)

pub queue_stats-Keeps :
    (w : World) (c : Client) (org queue : String) → Keeps w (queue_stats w c org queue)
unfolding queue_stats select_depth select_counts
queue_stats-Keeps w c org queue =
    Ensures-bind _ _
      (Keeps-quiet w (select_depth c queue)
        (λ m. IsQuiet-lift (c.uuid_param queue) _ (λ _. read-IsQuiet _)))
      λ depth.
        Ensures-bind _ _
          (Keeps-quiet w (select_counts c queue)
            (λ m. IsQuiet-lift (c.uuid_param queue) _ (λ _. read-IsQuiet _)))
          λ n.
            Ensures-bind _ _
              (Keeps-quiet w (select_queue c queue org) (select_queue-IsQuiet c queue org))
              (answer_stats-Keeps w depth n)

pub list_jobs-Keeps :
    (w : World) (c : Client) (org : String) (status queue : Option String)
    → Keeps w (list_jobs w c org status queue)
unfolding list_jobs select_jobs
list_jobs-Keeps w c org status queue = Ensures-bind request_tick _ (request_tick-Keeps w) λ _.
    Ensures-bind _ _
      (Keeps-quiet w (select_jobs c org (or_else status "") queue) (λ m.
        IsQuiet-lift (c.uuid_param org) _
          (λ _. IsQuiet-lift (optional_uuid c queue) _ (λ _. read-IsQuiet _))))
      (λ rows.
        Keeps-lift (map_jobs w.js rows) _
          (λ items. Ensures-pure (json (Body.jobs items) 200) (λ _ s. s)))

show_job-Keeps : (w : World) (row : Option Job) → Keeps w (show_job w row)
show_job-Keeps w none = Ensures-pure _ (λ _ s. s)
show_job-Keeps w (some row) =
    Keeps-lift (map_job w.js row) _ (λ v. Ensures-pure (json (Body.job v) 200) (λ _ s. s))

pub get_job-Keeps : (w : World) (c : Client) (org job : String) → Keeps w (get_job w c org job)
unfolding get_job select_job
get_job-Keeps w c org job =
    Ensures-bind _ _
      (Keeps-quiet w (select_job c job org) (λ m.
        IsQuiet-lift (c.uuid_param job) _
          (λ _. IsQuiet-lift (c.uuid_param org) _ (λ _. read-IsQuiet _))))
      (show_job-Keeps w)

pub job_executions-Keeps :
    (w : World) (c : Client) (org job : String) → Keeps w (job_executions w c org job)
unfolding job_executions select_executions
job_executions-Keeps w c org job =
    Ensures-bind _ _
      (Keeps-quiet w (select_executions c job org) (λ m.
        IsQuiet-lift (c.uuid_param job) _
          (λ _. IsQuiet-lift (c.uuid_param org) _ (λ _. read-IsQuiet _))))
      (λ rows. Ensures-pure _ (λ _ s. s))

pub job_logs-Keeps : (w : World) (c : Client) (org job : String) → Keeps w (job_logs w c org job)
unfolding job_logs select_logs
job_logs-Keeps w c org job =
    Ensures-bind _ _
      (Keeps-quiet w (select_logs c job org) (λ m.
        IsQuiet-lift (c.uuid_param job) _
          (λ _. IsQuiet-lift (c.uuid_param org) _ (λ _. read-IsQuiet _))))
      (λ rows. Ensures-pure _ (λ _ s. s))

pub list_workers-Keeps : (w : World) → Keeps w (list_workers w)
unfolding list_workers select_workers
list_workers-Keeps w =
    Ensures-bind _ _ (Keeps-quiet w select_workers (λ m. read-IsQuiet _))
      (λ rows. Ensures-pure _ (λ _ s. s))

pub list_dead_letters-Keeps :
    (w : World) (c : Client) (org : String) → Keeps w (list_dead_letters w c org)
unfolding list_dead_letters select_dead_letters
list_dead_letters-Keeps w c org =
    Ensures-bind _ _
      (Keeps-quiet w (select_dead_letters c org)
        (λ m. IsQuiet-lift (c.uuid_param org) _ (λ _. read-IsQuiet _)))
      (λ rows. Ensures-pure _ (λ _ s. s))
