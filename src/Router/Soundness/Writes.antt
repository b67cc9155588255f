-- ===== src/Router/Soundness/Writes.antt =====
-- The handlers of dashboard/src/server/router.ts that write projects and queues, and the retry.
use job_scheduler.Prelude.{refl, Bool, true, false, String, Option, none, some, List, arith}
use job_scheduler.Json.{Json, null, read_member, member}
use job_scheduler.Db.{Db, Queue, Project}
use job_scheduler.Db.Client.{Client}
use job_scheduler.Db.Sql.{World, Moment, Result}
use job_scheduler.Db.Ensures.{Ensures-bind, Ensures-pure}
use job_scheduler.Router.Projects.{
  insert_given_project, project_row, insert_project_row, create_project, select_own_project,
  insert_given_queue, queue_row, insert_queue_row, create_queue, create_queue_in,
}
use job_scheduler.Router.Queues.{
  update_paused, pause_queue, resume_queue, update_queue_row, update_queue, update_addressed,
  show_queue,
}
use job_scheduler.Router.Submit.{read, nullish}
use job_scheduler.Router.Soundness.{IsQuiet, IsQuiet-lift, Keeps, Keeps-quiet, Keeps-lift}
use job_scheduler.Router.Soundness.Reads.{read-IsQuiet}

insert_project_row-IsQuiet : (row : Project) → IsQuiet (insert_project_row row)
unfolding insert_project_row
insert_project_row-IsQuiet row = record {
  jobs = λ db. ground arith;
  heartbeats = λ db. ground arith;
  dead_letters = λ db. ground arith;
  statements = λ db. ground arith;
}

insert_queue_row-IsQuiet : (row : Queue) → IsQuiet (insert_queue_row row)
unfolding insert_queue_row
insert_queue_row-IsQuiet row = record {
  jobs = λ db. ground arith;
  heartbeats = λ db. ground arith;
  dead_letters = λ db. ground arith;
  statements = λ db. ground arith;
}

pub create_project-Keeps :
    (w : World) (c : Client) (org : String) (request : Result Json)
    → Keeps w (create_project w c org request)
unfolding create_project insert_given_project
create_project-Keeps w c org request = Keeps-lift request _ λ body.
    Keeps-lift (read (read_member w.js "name" body)) _ λ _.
      Ensures-bind _ _
        (Keeps-quiet w (insert_given_project c org body) (λ m.
          IsQuiet-lift (project_row c org body m) insert_project_row insert_project_row-IsQuiet))
        (λ row. Ensures-pure _ (λ _ s. s))

create_queue_in-Keeps :
    (w : World) (c : Client) (body : Json) (found : Option Project)
    → Keeps w (create_queue_in w c body found)
unfolding insert_given_queue
create_queue_in-Keeps w c body none = Ensures-pure _ (λ _ s. s)
create_queue_in-Keeps w c body (some _) =
    Ensures-bind _ _
      (Keeps-quiet w (insert_given_queue c body)
        (λ m. IsQuiet-lift (queue_row c body m) insert_queue_row insert_queue_row-IsQuiet))
      (λ row. Ensures-pure _ (λ _ s. s))

pub create_queue-Keeps :
    (w : World) (c : Client) (org : String) (request : Result Json)
    → Keeps w (create_queue w c org request)
unfolding create_queue select_own_project
create_queue-Keeps w c org request = Keeps-lift request _ λ body.
    Keeps-lift (read (read_member w.js "project_id" body)) _ λ given.
      Ensures-bind _ _
        (Keeps-quiet w (select_own_project c org given) (λ m.
          IsQuiet-lift (c.uuid_value_param given) _
            (λ _. IsQuiet-lift (c.uuid_param org) _ (λ _. read-IsQuiet _))))
        (create_queue_in-Keeps w c body)

-- A program that writes the queues alone.
queues-IsQuiet :
    {A : Type 0} (f : Db → Result A) (g : Db → List Queue)
    → IsQuiet (λ db. (f db, record db { queues = g db }))
queues-IsQuiet f g = record {
  jobs = λ db. refl;
  heartbeats = λ db. refl;
  dead_letters = λ db. refl;
  statements = λ db. refl;
}

update_paused-IsQuiet :
    (paused : Bool) (c : Client) (queue org : String) (m : Moment)
    → IsQuiet (update_paused paused c queue org m)
unfolding update_paused
update_paused-IsQuiet paused c queue org m =
    IsQuiet-lift (c.uuid_param queue) _
      (λ id. IsQuiet-lift (c.uuid_param org) _ (λ org_id. queues-IsQuiet _ _))

pub pause_queue-Keeps :
    (w : World) (c : Client) (org queue : String) → Keeps w (pause_queue w c org queue)
unfolding pause_queue
pause_queue-Keeps w c org queue =
    Ensures-bind _ _
      (Keeps-quiet w (update_paused true c queue org) (update_paused-IsQuiet true c queue org))
      (λ _. Ensures-pure _ (λ _ s. s))

pub resume_queue-Keeps :
    (w : World) (c : Client) (org queue : String) → Keeps w (resume_queue w c org queue)
unfolding resume_queue
resume_queue-Keeps w c org queue =
    Ensures-bind _ _
      (Keeps-quiet w (update_paused false c queue org) (update_paused-IsQuiet false c queue org))
      (λ _. Ensures-pure _ (λ _ s. s))

update_queue_row-IsQuiet :
    (c : Client) (queue org : String) (body : Json) (m : Moment)
    → IsQuiet (update_queue_row c queue org body m)
unfolding update_queue_row update_addressed
update_queue_row-IsQuiet c queue org body m =
    IsQuiet-lift (c.text_param (nullish (member "name" body) (some null))) _ λ name.
      IsQuiet-lift (c.int_param (nullish (member "priority_default" body) (some null))) _
        λ priority.
          IsQuiet-lift (c.int_param (nullish (member "concurrency_limit" body) (some null))) _
            λ limit.
              IsQuiet-lift (c.uuid_param queue) _
                (λ id. IsQuiet-lift (c.uuid_param org) _ (λ org_id. queues-IsQuiet _ _))

show_queue-Keeps : (w : World) (row : Option Queue) → Keeps w (show_queue w row)
show_queue-Keeps w none = Ensures-pure _ (λ _ s. s)
show_queue-Keeps w (some row) = Ensures-pure _ (λ _ s. s)

pub update_queue-Keeps :
    (w : World) (c : Client) (org queue : String) (request : Result Json)
    → Keeps w (update_queue w c org queue request)
unfolding update_queue
update_queue-Keeps w c org queue request = Keeps-lift request _ λ body.
    Keeps-lift (read (read_member w.js "name" body)) _ λ _.
      Ensures-bind _ _
        (Keeps-quiet w (update_queue_row c queue org body)
          (update_queue_row-IsQuiet c queue org body))
        (show_queue-Keeps w)
