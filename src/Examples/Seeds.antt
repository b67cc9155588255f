-- ===== src/Examples/Seeds.antt =====
-- Seeding empty tables, and then again.
use job_scheduler.Prelude.{◌≡◌, refl, some, none}
use job_scheduler.Db.{User, empty}
use job_scheduler.Db.Sql.{ok, sent, statement}
use job_scheduler.Setup.{
  insert_organization, insert_user, insert_project, insert_queue, insert_seed_job,
  insert_seed_worker, seed_demo,
}
use job_scheduler.Setup.Once.{seed_demo_once}
use job_scheduler.Samples.{calm}

abbrev admin : User
admin = record {
  id = 502;
  org_id = 501;
  email = "admin@demo.com";
  name = "Demo Admin";
  role = "admin";
  password_hash = "demo";
  created_at = 102_000;
  updated_at = 102_000;
}

seed_demo_returns : (seed_demo calm empty).0 ≡ ok (some admin)
unfolding seed_demo statement insert_organization insert_user insert_project insert_queue
    insert_seed_job insert_seed_worker
seed_demo_returns = refl

seed_demo_counts : (seed_demo calm empty).1.statements ≡ 17
unfolding seed_demo statement insert_organization insert_user insert_project insert_queue
    insert_seed_job insert_seed_worker
seed_demo_counts = refl

seed_demo_once_example :
    seed_demo calm (seed_demo calm empty).1 ≡ (ok none, sent (seed_demo calm empty).1)
seed_demo_once_example = seed_demo_once calm calm empty (some admin) seed_demo_returns refl
