-- ===== src/Setup.antt =====
-- The demo data of dashboard/src/server/setup.ts: `seedDemo` and `resolveDemoUser`. The foreign keys
-- of the seeded rows refer to rows that the same run has inserted, and are not checked again.
pub mod Once
use job_scheduler.Prelude.{
  ℕ, ◌+◌, ◌*◌, ℤ, pos, String, Bool, true, false, Option, none, some, List, [], ◌∷◌, ◌++◌, ◌==◌,
  ◌&&◌, str_eq, select_one, if◌then◌else◌,
}
use job_scheduler.Json.{Json, obj, field, str, num, end}
use job_scheduler.Db.{Db, Organization, User, Project, Queue, Worker, Job, queued, active}
use job_scheduler.Db.Sql.{
  World, Moment, Result, ok, throws, Query, Action, statement, pure, ◌>>=◌, ◌>>◌,
}

abbrev duplicate : String
duplicate = "duplicate key value violates unique constraint"

-- `slug = 'demo'`
abbrev pub is_demo : Organization → Bool
is_demo o = str_eq o.slug "demo"

abbrev pub select_demo : Query (Option Organization)
select_demo m db = (ok (select_one is_demo db.organizations), db)

abbrev new_organization : Moment → Organization
new_organization m = record {
  id = m.fresh;
  name = "Demo Corp";
  slug = "demo";
  created_at = m.now;
  updated_at = m.now;
}

-- `organizations.slug` is UNIQUE.
unfoldable pub insert_organization : Query ℕ
insert_organization m db = elim (select_one is_demo db.organizations) [
  | some _ ↦ (throws duplicate, db)
  | none ↦ (ok m.fresh, record db { organizations = db.organizations ++ new_organization m ∷ [] })
]

abbrev new_user : Moment → ℕ → User
new_user m org_id = record {
  id = m.fresh;
  org_id = org_id;
  email = "admin@demo.com";
  name = "Demo Admin";
  role = "admin";
  password_hash = "demo";
  created_at = m.now;
  updated_at = m.now;
}

-- UNIQUE (org_id, email)
unfoldable pub insert_user : ℕ → Query User
insert_user org_id m db =
    elim (select_one (λ u. (u.org_id == org_id) && str_eq u.email "admin@demo.com") db.users) [
      | some _ ↦ (throws duplicate, db)
      | none ↦ (ok (new_user m org_id), record db { users = db.users ++ new_user m org_id ∷ [] })
    ]

abbrev new_project : Moment → ℕ → Project
new_project m org_id = record {
  id = m.fresh;
  org_id = org_id;
  name = "Platform";
  slug = "platform";
  description = some "Demo project";
  created_at = m.now;
  updated_at = m.now;
}

-- UNIQUE (org_id, slug)
unfoldable pub insert_project : ℕ → Query ℕ
insert_project org_id m db =
    elim (select_one (λ p. (p.org_id == org_id) && str_eq p.slug "platform") db.projects) [
      | some _ ↦ (throws duplicate, db)
      | none ↦ (ok m.fresh, record db { projects = db.projects ++ new_project m org_id ∷ [] })
    ]

-- An entry of the array `queues`.
pub record Seed : Type 0 where
  pub name : String
  pub slug : String
  pub limit : ℕ

abbrev pub seeds : List Seed
seeds =
    record { name = "Emails"; slug = "emails"; limit = 10 }
    ∷ record { name = "Webhooks"; slug = "webhooks"; limit = 5 }
    ∷ record { name = "Reports"; slug = "reports"; limit = 3 }
    ∷ []

abbrev new_queue : Moment → ℕ → Seed → Queue
new_queue m project_id q = record {
  id = m.fresh;
  project_id = project_id;
  name = q.name;
  slug = q.slug;
  retry_policy_id = none;
  priority_default = pos 5;
  concurrency_limit = some (pos q.limit);
  paused = false;
  created_at = m.now;
  updated_at = m.now;
}

-- UNIQUE (project_id, slug)
unfoldable pub insert_queue : ℕ → Seed → Query ℕ
insert_queue project_id q m db =
    elim (select_one (λ r. (r.project_id == project_id) && str_eq r.slug q.slug) db.queues) [
      | some _ ↦ (throws duplicate, db)
      | none ↦ (ok m.fresh, record db { queues = db.queues ++ new_queue m project_id q ∷ [] })
    ]

-- `{ type: "sleep", duration_ms: 200 + i * 100 }`
abbrev seed_payload : ℕ → Json
seed_payload i =
    obj (field "type" (str "sleep") (field "duration_ms" (num (pos (200 + i * 100))) end))

abbrev pub seed_job : Moment → ℕ → ℕ → Job
seed_job m queue_id i = record {
  id = m.fresh;
  queue_id = queue_id;
  status = queued;
  priority = pos 5;
  payload = seed_payload i;
  idempotency_key = none;
  next_run_at = some m.now;
  attempts = 0;
  max_attempts = pos 3;
  retry_policy_id = none;
  worker_id = none;
  claimed_at = none;
  lease_expires_at = none;
  completed_at = none;
  failed_at = none;
  error_message = none;
  cron_expr = none;
  batch_id = none;
  created_at = m.now;
  updated_at = m.now;
}

unfoldable pub insert_seed_job : ℕ → ℕ → Query (Unit {0})
insert_seed_job queue_id i m db =
    (ok tt, record db { jobs = db.jobs ++ seed_job m queue_id i ∷ [] })

abbrev seed_worker : Moment → Worker
seed_worker m = record {
  id = m.fresh;
  name = "vercel-worker-1";
  status = active;
  meta = none;
  created_at = m.now;
  updated_at = m.now;
}

unfoldable pub insert_seed_worker : Query (Unit {0})
insert_seed_worker m db = (ok tt, record db { workers = db.workers ++ seed_worker m ∷ [] })

-- The body of the loop over `queues`.
unfoldable pub seed_queue : World → ℕ → Seed → Action (Unit {0})
unfolding insert_queue insert_seed_job
seed_queue w project_id q = do
  queue_id ← statement w (insert_queue project_id q)
  statement w (insert_seed_job queue_id 0)
  statement w (insert_seed_job queue_id 1)
  statement w (insert_seed_job queue_id 2)

unfoldable pub seed_queues : World → ℕ → List Seed → Action (Unit {0})
unfolding seed_queue
seed_queues w project_id [] = pure tt
seed_queues w project_id (q ∷ qs) = do seed_queue w project_id q; seed_queues w project_id qs

-- The inserts behind the check; the answer's `user`.
unfoldable pub plant : World → Action User
unfolding insert_organization insert_user insert_project seed_queues insert_seed_worker
plant w = do
  org_id ← statement w insert_organization
  user ← statement w (insert_user org_id)
  project_id ← statement w (insert_project org_id)
  seed_queues w project_id seeds
  statement w insert_seed_worker
  pure user

abbrev pub plant_unless : World → Option Organization → Action (Option User)
plant_unless w (some _) = pure none
plant_unless w none = do user ← plant w; pure (some user)

-- `none` is `{ seeded: false }`.
unfoldable pub seed_demo : World → Action (Option User)
unfolding plant
seed_demo w = do existing ← statement w select_demo; plant_unless w existing

-- `SELECT … FROM users WHERE email = … LIMIT 1`
abbrev pub select_user : String → Query (Option User)
select_user email m db = (ok (select_one (λ u. str_eq u.email email) db.users), db)

abbrev pub or_admin : World → Option User → Action (Option User)
or_admin w (some user) = pure (some user)
or_admin w none = statement w (select_user "admin@demo.com")

unfoldable pub resolve_demo_user : World → String → Action (Option User)
resolve_demo_user w email = do user ← statement w (select_user email); or_admin w user
