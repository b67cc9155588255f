-- ===== src/Entry/Soundness.antt =====
-- The cron job and the setup under dashboard/src/app/api on sound tables.
use job_scheduler.Prelude.{
  ℕ, zero, suc, ◌≡◌, refl, arith, ◌⊎◌, inl, inr, String, Option, none, some, List, [], ◌∷◌, Bool,
  true, false, if◌then◌else◌,
}
use job_scheduler.Db.{Db, Organization}
use job_scheduler.Db.Sql.{World, Moment, moment, Result, ok, throws, statement}
use job_scheduler.Db.Ensures.{Ensures-bind, Ensures-pure, Ensures-after}
use job_scheduler.Auth.{or_else}
use job_scheduler.Http.{Response, Body, json}
use job_scheduler.Setup.{
  Seed, seeds, select_demo, insert_organization, insert_user, insert_project, insert_queue,
  seed_job, insert_seed_job, insert_seed_worker, seed_queue, seed_queues, plant, plant_unless,
  seed_demo,
}
use job_scheduler.Router.{Server}
use job_scheduler.Router.Login.{get_sql}
use job_scheduler.Router.Soundness.{
  DrawsOnce, IsReady, IsQuiet, Keeps, Keeps-statement, Keeps-quiet, Keeps-lift,
}
use job_scheduler.Router.Soundness.Appends.{IsNew, append-IsReady}
use job_scheduler.Router.Soundness.Reads.{read-IsQuiet}
use job_scheduler.Router.Soundness.Requests.{run_worker_tick-Keeps}
use job_scheduler.Entry.{
  is_forbidden, answered, connected_tick, report, cron_worker, schema_statements, find_existing,
  create_all, ensure_schema, prepare, connected, setup,
}

-- The inserts that write neither jobs nor heartbeats nor dead letters.
insert_organization-IsQuiet : (m : Moment) → IsQuiet (insert_organization m)
unfolding insert_organization
insert_organization-IsQuiet m = record {
  jobs = λ db. ground arith;
  heartbeats = λ db. ground arith;
  dead_letters = λ db. ground arith;
  statements = λ db. ground arith;
}

insert_user-IsQuiet : (org_id : ℕ) (m : Moment) → IsQuiet (insert_user org_id m)
unfolding insert_user
insert_user-IsQuiet org_id m = record {
  jobs = λ db. ground arith;
  heartbeats = λ db. ground arith;
  dead_letters = λ db. ground arith;
  statements = λ db. ground arith;
}

insert_project-IsQuiet : (org_id : ℕ) (m : Moment) → IsQuiet (insert_project org_id m)
unfolding insert_project
insert_project-IsQuiet org_id m = record {
  jobs = λ db. ground arith;
  heartbeats = λ db. ground arith;
  dead_letters = λ db. ground arith;
  statements = λ db. ground arith;
}

insert_queue-IsQuiet :
    (project_id : ℕ) (q : Seed) (m : Moment) → IsQuiet (insert_queue project_id q m)
unfolding insert_queue
insert_queue-IsQuiet project_id q m = record {
  jobs = λ db. ground arith;
  heartbeats = λ db. ground arith;
  dead_letters = λ db. ground arith;
  statements = λ db. ground arith;
}

insert_seed_worker-IsQuiet : (m : Moment) → IsQuiet (insert_seed_worker m)
unfolding insert_seed_worker
insert_seed_worker-IsQuiet m = record {
  jobs = λ db. refl;
  heartbeats = λ db. refl;
  dead_letters = λ db. refl;
  statements = λ db. refl;
}

seed_job-IsNew : (m : Moment) (queue_id i : ℕ) → IsNew m (seed_job m queue_id i)
seed_job-IsNew m queue_id i = record {
  id = refl;
  row_sound = record { worker = refl; lease = refl; in_flight = λ x. cc };
}

module _ (w : World) (once : DrawsOnce w) where
  insert_seed_job-Keeps : (queue_id i : ℕ) → Keeps w (statement w (insert_seed_job queue_id i))
  unfolding insert_seed_job
  insert_seed_job-Keeps queue_id i = Keeps-statement w (insert_seed_job queue_id i) λ db s.
      append-IsReady w once db s (seed_job (moment w db) queue_id i)
        (seed_job-IsNew (moment w db) queue_id i)

  seed_queue-Keeps : (project_id : ℕ) (q : Seed) → Keeps w (seed_queue w project_id q)
  unfolding seed_queue
  seed_queue-Keeps project_id q =
      Ensures-bind _ _
        (Keeps-quiet w (insert_queue project_id q) (insert_queue-IsQuiet project_id q))
        λ queue_id. Ensures-bind _ _ (insert_seed_job-Keeps queue_id 0) λ _.
          Ensures-bind _ _ (insert_seed_job-Keeps queue_id 1) λ _. insert_seed_job-Keeps queue_id 2

  seed_queues-Keeps : (project_id : ℕ) (qs : List Seed) → Keeps w (seed_queues w project_id qs)
  unfolding seed_queues
  seed_queues-Keeps project_id [] = Ensures-pure _ (λ _ s. s)
  seed_queues-Keeps project_id (q ∷ qs) =
      Ensures-bind _ _ (seed_queue-Keeps project_id q) (λ _. seed_queues-Keeps project_id qs)

  plant-Keeps : Keeps w (plant w)
  unfolding plant
  plant-Keeps =
      Ensures-bind _ _ (Keeps-quiet w insert_organization insert_organization-IsQuiet) λ org_id.
        Ensures-bind _ _ (Keeps-quiet w (insert_user org_id) (insert_user-IsQuiet org_id)) λ user.
          Ensures-bind _ _ (Keeps-quiet w (insert_project org_id) (insert_project-IsQuiet org_id))
            λ project_id. Ensures-bind _ _ (seed_queues-Keeps project_id seeds) λ _.
              Ensures-bind _ _ (Keeps-quiet w insert_seed_worker insert_seed_worker-IsQuiet)
                (λ _. Ensures-pure user (λ _ s. s))

  plant_unless-Keeps : (existing : Option Organization) → Keeps w (plant_unless w existing)
  plant_unless-Keeps (some _) = Ensures-pure none (λ _ s. s)
  plant_unless-Keeps none =
      Ensures-bind _ _ plant-Keeps (λ user. Ensures-pure (some user) (λ _ s. s))

  seed_demo-Keeps : Keeps w (seed_demo w)
  unfolding seed_demo
  seed_demo-Keeps =
      Ensures-bind _ _ (Keeps-quiet w select_demo (λ m. read-IsQuiet _)) plant_unless-Keeps

create_all-Keeps : (w : World) (n : ℕ) → Keeps w (create_all w n)
unfolding create_all
create_all-Keeps w zero = Ensures-pure tt (λ _ s. s)
create_all-Keeps w (suc n) =
    Ensures-bind _ _ (Keeps-quiet w find_existing (λ m. read-IsQuiet _)) (λ _. create_all-Keeps w n)

prepare-Keeps : (s : Server) → DrawsOnce s.world → Keeps s.world (prepare s)
unfolding ensure_schema
prepare-Keeps s once = Ensures-bind _ _ (create_all-Keeps s.world schema_statements) λ _.
    Ensures-bind _ _ (seed_demo-Keeps s.world once)
      (λ user. Ensures-pure (json (Body.planted user) 200) (λ _ h. h))

pub connected_tick-Keeps : (s : Server) → Keeps s.world (connected_tick s)
connected_tick-Keeps s = Keeps-lift (get_sql s.env) _ (λ _. run_worker_tick-Keeps s.world)

report-Keeps : (s : Server) → Keeps s.world (report s)
report-Keeps s =
    Ensures-bind _ _ (connected_tick-Keeps s)
      (λ n. Ensures-pure (json (Body.tick n) 200) (λ _ h. h))

answered-IsReady : (w : World) (r : Result Response × Db) → IsReady w r.1 → IsReady w (answered r).1
answered-IsReady w (ok response, db) h = h
answered-IsReady w (throws message, db) h = h

if-IsReady :
    (w : World) (b : Bool) (refusal outcome : Response × Db)
    → IsReady w refusal.1
    → IsReady w outcome.1
    → IsReady w (if b then refusal else outcome).1
if-IsReady w true refusal outcome h k = h
if-IsReady w false refusal outcome h k = k

pub cron_worker-IsReady :
    (s : Server) (authorization : Option String) (db : Db)
    → IsReady s.world db
    → IsReady s.world (cron_worker s authorization db).1
unfolding cron_worker
cron_worker-IsReady s authorization db h =
    if-IsReady s.world (is_forbidden (or_else s.env.cron_secret "") authorization) _ _ h
      (answered-IsReady s.world (report s db) (Ensures-after (report s) db (report-Keeps s) h))

connected-IsReady :
    (s : Server) (db : Db)
    → DrawsOnce s.world
    → IsReady s.world db
    → IsReady s.world (connected s db).1
connected-IsReady s db once h = elim (Result-cases (get_sql s.env)) [
  | inl (_, e) ↦ rw (e, connected) (Ensures-after (prepare s) db (prepare-Keeps s once) h)
  | inr (_, e) ↦ rw (e, connected) h
]
  where
    Result-cases :
        {A : Type 0} (r : Result A)
        → ((a : A) × (r ≡ ok a)) ⊎ ((message : String) × (r ≡ throws message))
    Result-cases (ok a) = inl (a, refl)
    Result-cases (throws message) = inr (message, refl)

pub setup-IsReady :
    (s : Server) (authorization : Option String) (db : Db)
    → DrawsOnce s.world
    → IsReady s.world db
    → IsReady s.world (setup s authorization db).1
unfolding setup
setup-IsReady s authorization db once h =
    if-IsReady s.world
      (is_forbidden (or_else s.env.setup_secret (or_else s.env.cron_secret "")) authorization) _ _ h
      (answered-IsReady s.world (connected s db) (connected-IsReady s db once h))
