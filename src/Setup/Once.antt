-- ===== src/Setup/Once.antt =====
-- Seeding twice.
use job_scheduler.Prelude.{
  ◌==◌, ◌&&◌, str_eq, ℕ, ◌≡◌, refl, ap, ◌∙◌, true, Option, none, some, List, [], ◌∷◌, ◌++◌,
  select_one, Bool-cases, Option-cases, inl, inr,
}
use job_scheduler.Db.{Db, Organization, User}
use job_scheduler.Db.Sql.{World, served, ok, Result, throws, sent, statement, Action, Query, Moment}
use job_scheduler.Db.Served.{served-bind}
use job_scheduler.Db.Ensures.{
  Ensures, Ensures-statement, Ensures-bind, Ensures-pure, Ensures-pre, Post,
}
use job_scheduler.Setup.{
  Seed, is_demo, select_demo, insert_organization, insert_user, insert_project, insert_queue,
  insert_seed_job, insert_seed_worker, seed_queue, seed_queues, seeds, plant, plant_unless,
  seed_demo,
}

-- The organization that the check of a seeding finds.
abbrev pub HasDemo : Db → Type 0
HasDemo db = (o : Organization) × (select_one is_demo db.organizations ≡ some o)

abbrev Leaves : {A : Type 0} → Action A → Type 0
Leaves m = Ensures (λ _. Unit {0}) HasDemo m (λ _. HasDemo)

post : {A : Type 0} (r : Result A) (db : Db) → HasDemo db → Post (λ _. Unit {0}) (λ _. HasDemo) r db
post (ok a) db h = h
post (throws message) db h = tt

stated :
    {A : Type 0} (w : World) (query : Query A)
    → ((m : Moment) (db : Db) → (query m db).1.organizations ≡ db.organizations)
    → Leaves (statement w query)
stated w query same =
    Ensures-statement w query (λ _ h. h) (λ _ _. tt) (λ _ _ _. tt)
      λ m db h.
        let (o, e) = h in
        post (query m db).0 (query m db).1 (o, ap (select_one is_demo) (same m db) ∙ e)

insert_user-same :
    (org_id : ℕ) (m : Moment) (db : Db)
    → (insert_user org_id m db).1.organizations ≡ db.organizations
unfolding insert_user
insert_user-same org_id m db =
    elim (Option-cases
      (select_one (λ u. (u.org_id == org_id) && str_eq u.email "admin@demo.com") db.users)) [
        | inl e ↦ rw (e, insert_user) refl
        | inr (u, e) ↦ rw (e, insert_user) refl
      ]

insert_project-same :
    (org_id : ℕ) (m : Moment) (db : Db)
    → (insert_project org_id m db).1.organizations ≡ db.organizations
unfolding insert_project
insert_project-same org_id m db =
    elim (Option-cases
      (select_one (λ p. (p.org_id == org_id) && str_eq p.slug "platform") db.projects)) [
        | inl e ↦ rw (e, insert_project) refl
        | inr (p, e) ↦ rw (e, insert_project) refl
      ]

insert_queue-same :
    (project_id : ℕ) (q : Seed) (m : Moment) (db : Db)
    → (insert_queue project_id q m db).1.organizations ≡ db.organizations
unfolding insert_queue
insert_queue-same project_id q m db =
    elim (Option-cases
      (select_one (λ r. (r.project_id == project_id) && str_eq r.slug q.slug) db.queues)) [
        | inl e ↦ rw (e, insert_queue) refl
        | inr (r, e) ↦ rw (e, insert_queue) refl
      ]

insert_seed_job-Leaves :
    (w : World) (queue_id i : ℕ) → Leaves (statement w (insert_seed_job queue_id i))
unfolding insert_seed_job
insert_seed_job-Leaves w queue_id i = stated w (insert_seed_job queue_id i) (λ _ _. refl)

seed_queue-Leaves : (w : World) (project_id : ℕ) (q : Seed) → Leaves (seed_queue w project_id q)
unfolding seed_queue
seed_queue-Leaves w project_id q =
    Ensures-bind (statement w (insert_queue project_id q)) _
      (stated w (insert_queue project_id q) (insert_queue-same project_id q))
      λ id. Ensures-bind (statement w (insert_seed_job id 0)) _ (insert_seed_job-Leaves w id 0) λ _.
        Ensures-bind (statement w (insert_seed_job id 1)) _ (insert_seed_job-Leaves w id 1)
          λ _. insert_seed_job-Leaves w id 2

seed_queues-Leaves :
    (w : World) (project_id : ℕ) (qs : List Seed) → Leaves (seed_queues w project_id qs)
unfolding seed_queues
seed_queues-Leaves w project_id [] = Ensures-pure tt (λ _ h. h)
seed_queues-Leaves w project_id (q ∷ qs) =
    Ensures-bind (seed_queue w project_id q) _ (seed_queue-Leaves w project_id q)
      λ _. seed_queues-Leaves w project_id qs

select_one-snoc :
    (o : Organization) (os : List Organization)
    → select_one is_demo os ≡ none
    → is_demo o ≡ true
    → select_one is_demo (os ++ o ∷ []) ≡ some o
select_one-snoc o [] e h = rw h refl
select_one-snoc o (p ∷ os) e h = elim (Bool-cases (is_demo p)) [
  | inl t ↦ cc (rw t at e)
  | inr t ↦ rw t (select_one-snoc o os (rw t at e) h)
]

insert_organization-HasDemo :
    (m : Moment) (db : Db)
    → let (r, after) = insert_organization m db in Post (λ _. Unit {0}) (λ _. HasDemo) r after
unfolding insert_organization
insert_organization-HasDemo m db = elim (Option-cases (select_one is_demo db.organizations)) [
  | inl e ↦ rw (e, insert_organization) (_, select_one-snoc _ db.organizations e refl)
  | inr (o, e) ↦ rw (e, insert_organization) tt
]

plant-HasDemo : (w : World) → Ensures (λ _. Unit {0}) (λ _. Unit {0}) (plant w) (λ _. HasDemo)
unfolding plant insert_seed_worker
plant-HasDemo w =
    Ensures-bind (statement w insert_organization) _
      (Ensures-statement w insert_organization (λ _ _. tt) (λ _ _. tt) (λ _ _ _. tt)
        λ m db _. insert_organization-HasDemo m db)
      λ org.
        Ensures-bind (statement w (insert_user org)) _
          (stated w (insert_user org) (insert_user-same org))
          λ user.
            Ensures-bind (statement w (insert_project org)) _
              (stated w (insert_project org) (insert_project-same org))
              λ project.
                Ensures-bind (seed_queues w project seeds) _ (seed_queues-Leaves w project seeds)
                  λ _.
                    Ensures-bind (statement w insert_seed_worker) _
                      (stated w insert_seed_worker (λ _ _. refl)) λ _. Ensures-pure user (λ _ h. h)

seed_demo-HasDemo :
    (w : World) → Ensures (λ _. Unit {0}) (λ _. Unit {0}) (seed_demo w) (λ _. HasDemo)
unfolding seed_demo
seed_demo-HasDemo w =
    Ensures-bind {Q = λ o db. select_one is_demo db.organizations ≡ o} (statement w select_demo) _
      (Ensures-statement w select_demo (λ _ _. tt) (λ _ _. tt) (λ _ _ _. tt) (λ m db _. refl))
      λ o. unless o
  where
    unless :
        (o : Option Organization)
        → Ensures
            (λ _. Unit {0})
            (λ db. select_one is_demo db.organizations ≡ o)
            (plant_unless w o)
            (λ _. HasDemo)
    unless (some found) = Ensures-pure none (λ db e. (found, e))
    unless none =
        Ensures-bind (plant w) _ (Ensures-pre (λ _ _. tt) (plant-HasDemo w))
          λ user. Ensures-pure (some user) (λ _ h. h)

-- If the demo organization is there and the first statement is served, a seeding answers that it
-- seeded nothing, and changes no table.
seed_demo_again :
    (w : World) (db : Db)
    → HasDemo db
    → w.fault db.statements ≡ served
    → seed_demo w db ≡ (ok none, sent db)
unfolding seed_demo
seed_demo_again w db (o, e) h =
    served-bind w select_demo (plant_unless w) db h ∙ ap (λ r. plant_unless w r (sent db)) e

ok-Post :
    {A : Type 0} (r : Result A) (db : Db) {a : A}
    → Post (λ _. Unit {0}) (λ _. HasDemo) r db
    → r ≡ ok a
    → HasDemo db
ok-Post (ok _) db h e = h
ok-Post (throws _) db h e = cc

-- If a seeding returned, whatever it found before, then the next one answers that it seeded nothing
-- and changes no table, if its first statement is served.
pub seed_demo_once :
    (w w' : World) (db : Db) (answer : Option User)
    → (seed_demo w db).0 ≡ ok answer
    → w'.fault (seed_demo w db).1.statements ≡ served
    → seed_demo w' (seed_demo w db).1 ≡ (ok none, sent (seed_demo w db).1)
seed_demo_once w w' db answer e h =
    seed_demo_again w' (seed_demo w db).1
      (ok-Post (seed_demo w db).0 (seed_demo w db).1 ((seed_demo-HasDemo w).at db tt) e) h
