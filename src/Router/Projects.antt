-- ===== src/Router/Projects.antt =====
-- The handlers of projects, and `POST queues`, in dashboard/src/server/router.ts.
pub mod Tenancy
use job_scheduler.Prelude.{
  ℕ, ℤ, pos, String, Bool, true, false, Option, none, some, List, [], ◌∷◌, ◌++◌, ◌==◌, ◌&&◌, leb,
  str_eq, select, select_one, sort_by, inl, inr, ◌⊎◌,
}
use job_scheduler.Json.{Json, null, num, member, read_member}
use job_scheduler.Db.{Db, Project, Queue}
use job_scheduler.Db.Client.{Client, not_null}
use job_scheduler.Db.Sql.{
  World, Moment, Result, ok, throws, Query, Action, statement, pure, lift, ◌>>=◌, ◌>>◌, ◌>>?◌,
}
use job_scheduler.Http.{Response, Body, json, error, map_queue}
use job_scheduler.Router.Submit.{nullish, read}

-- `ORDER BY created_at`
unfoldable pub is_earlier : Project → Project → Bool
is_earlier a b = leb a.created_at b.created_at

unfoldable pub select_projects : Client → String → Query (List Project)
unfolding is_earlier
select_projects c org m = do
  org_id ← lift (c.uuid_param org)
  λ db. (ok (sort_by is_earlier (select (λ p. p.org_id == org_id) db.projects)), db)

unfoldable pub list_projects : World → Client → String → Action Response
unfolding select_projects
list_projects w c org = do
  rows ← statement w (select_projects c org)
  pure (json (Body.projects rows) 200)

abbrev new_project : Moment → ℕ → String → String → Option String → Project
new_project m org_id name slug description = record {
  id = m.fresh;
  org_id = org_id;
  name = name;
  slug = slug;
  description = description;
  created_at = m.now;
  updated_at = m.now;
}

-- UNIQUE (org_id, slug), and the organization that the row refers to.
unfoldable pub insert_project_row : Project → Action Project
insert_project_row row db =
    elim (select_one (λ p. (p.org_id == row.org_id) && str_eq p.slug row.slug) db.projects) [
      | some _ ↦ (throws "duplicate key value violates unique constraint", db)
      | none ↦ elim (select_one (λ o. o.id == row.org_id) db.organizations) [
        | none ↦ (throws "insert or update violates foreign key constraint", db)
        | some _ ↦ (ok row, record db { projects = db.projects ++ row ∷ [] })
      ]
    ]

unfoldable pub project_row : Client → String → Json → Moment → Result Project
unfolding member
project_row c org body m = c.uuid_param org >>? λ org_id.
    (c.text_param (member "name" body) >>? not_null) >>? λ name.
    (c.text_param (member "slug" body) >>? not_null) >>? λ slug.
    c.text_param (nullish (member "description" body) (some null)) >>? λ description.
    ok (new_project m org_id name slug description)

unfoldable pub insert_given_project : Client → String → Json → Query Project
unfolding project_row insert_project_row
insert_given_project c org body m = do row ← lift (project_row c org body m); insert_project_row row

unfoldable pub create_project : World → Client → String → Result Json → Action Response
unfolding insert_given_project
create_project w c org request = do
  body ← lift request
  _ ← lift (read (read_member w.js "name" body))
  row ← statement w (insert_given_project c org body)
  pure (json (Body.project row) 201)

abbrev is_own : ℕ → Option ℕ → Project → Bool
is_own org_id none p = false
is_own org_id (some id) p = (p.id == id) && (p.org_id == org_id)

-- `SELECT id FROM projects WHERE id = … AND org_id = … LIMIT 1`; NULL is the id of no project.
unfoldable pub select_own_project : Client → String → Option Json → Query (Option Project)
select_own_project c org given m = do
  id ← lift (c.uuid_value_param given)
  org_id ← lift (c.uuid_param org)
  λ db. (ok (select_one (is_own org_id id) db.projects), db)

abbrev new_queue : Moment → ℕ → String → String → ℤ → Option ℤ → Queue
new_queue m project_id name slug priority limit = record {
  id = m.fresh;
  project_id = project_id;
  name = name;
  slug = slug;
  retry_policy_id = none;
  priority_default = priority;
  concurrency_limit = limit;
  paused = false;
  created_at = m.now;
  updated_at = m.now;
}

unfoldable pub queue_row : Client → Json → Moment → Result Queue
unfolding member
queue_row c body m = (c.uuid_value_param (member "project_id" body) >>? not_null) >>? λ project_id.
    (c.text_param (member "name" body) >>? not_null) >>? λ name.
    (c.text_param (member "slug" body) >>? not_null) >>? λ slug.
    (c.int_param (nullish (member "priority_default" body) (some (num (pos 5)))) >>? not_null)
    >>? λ priority. c.int_param (nullish (member "concurrency_limit" body) (some null)) >>? λ limit.
        ok (new_queue m project_id name slug priority limit)

-- UNIQUE (project_id, slug), and the project that the row refers to.
unfoldable pub insert_queue_row : Queue → Action Queue
insert_queue_row row db =
    elim (select_one (λ q. (q.project_id == row.project_id) && str_eq q.slug row.slug) db.queues) [
      | some _ ↦ (throws "duplicate key value violates unique constraint", db)
      | none ↦ elim (select_one (λ p. p.id == row.project_id) db.projects) [
        | none ↦ (throws "insert or update violates foreign key constraint", db)
        | some _ ↦ (ok row, record db { queues = db.queues ++ row ∷ [] })
      ]
    ]

unfoldable pub insert_given_queue : Client → Json → Query Queue
unfolding queue_row insert_queue_row
insert_given_queue c body m = do row ← lift (queue_row c body m); insert_queue_row row

abbrev pub create_queue_in : World → Client → Json → Option Project → Action Response
create_queue_in w c body none = pure (error "project not found" 404 "ERROR")
create_queue_in w c body (some _) = do
  row ← statement w (insert_given_queue c body)
  pure (json (Body.queue (map_queue w.js row)) 201)

unfoldable pub create_queue : World → Client → String → Result Json → Action Response
unfolding select_own_project insert_given_queue map_queue
create_queue w c org request = do
  body ← lift request
  given ← lift (read (read_member w.js "project_id" body))
  found ← statement w (select_own_project c org given)
  create_queue_in w c body found
