-- ===== src/Router/Soundness/Submits.antt =====
-- `POST queues/:id/jobs` of dashboard/src/server/router.ts on sound tables.
use job_scheduler.Prelude.{
  refl, String, Option, none, some, select_one, ◌==◌, ℤ, pos, Option-cases, inl, inr,
}
use job_scheduler.Json.{Json, Js, null, num, truthy, member, read_member}
use job_scheduler.Db.{Db, Job, Queue}
use job_scheduler.Db.Client.{Client, not_null}
use job_scheduler.Db.Sql.{
  World, Moment, moment, sent, Result, ok, throws, statement, lift, ◌>>=◌, ◌>>?◌,
}
use job_scheduler.Db.Ensures.{Ensures-bind, Ensures-pure, Ensures-if}
use job_scheduler.Http.{Body, json, map_job}
use job_scheduler.Router.{request_tick}
use job_scheduler.Router.Submit.{
  read, nullish, select_queue, select_existing, has_key, find_existing, insert_row, job_row,
  insert_job, create_job, replay_or_create, submit_to, submit_job,
}
use job_scheduler.Router.Soundness.{
  DrawsOnce, IsReady, IsQuiet-lift, Keeps, Keeps-statement, Keeps-quiet, Keeps-lift, sent-IsReady,
  request_tick-Keeps,
}
use job_scheduler.Router.Soundness.Appends.{IsNew, append-IsReady}
use job_scheduler.Router.Soundness.Reads.{read-IsQuiet, select_queue-IsQuiet}

-- What a conversion gives, if it gives anything.
abbrev Gives : {A : Type 0} → (A → Type 0) → Result A → Type 0
Gives P (ok a) = P a
Gives P (throws _) = Unit

Gives-behind :
    {A B : Type 0} (P : B → Type 0) (r : Result A) (f : A → Result B)
    → ((a : A) → Gives P (f a))
    → Gives P (r >>? f)
Gives-behind P (ok a) f h = h a
Gives-behind P (throws s) f h = tt

job_row-IsNew :
    (js : Js) (c : Client) (queue : String) (default : ℤ) (body : Json) (m : Moment)
    → Gives (IsNew m) (job_row js c queue default body m)
unfolding job_row
job_row-IsNew js c queue default body m = Gives-behind (IsNew m) (c.uuid_param queue) _ λ queue_id.
    Gives-behind (IsNew m)
      (c.int_param (nullish (member "priority" body) (some (num default))) >>? not_null) _
      λ priority.
        Gives-behind (IsNew m) (c.jsonb_param (member "payload" body) >>? not_null) _ λ payload.
          Gives-behind (IsNew m)
            (c.text_param (nullish (member "idempotency_key" body) (some null))) _
            λ key.
              Gives-behind (IsNew m)
                (c.int_param (nullish (member "max_attempts" body) (some (num (pos 3))))
                  >>? not_null)
                _
                λ max.
                  Gives-behind (IsNew m)
                    (c.text_param (nullish (member "cron_expr" body) (some null))) _
                    λ cron_expr. record {
                      id = refl;
                      row_sound = record { worker = refl; lease = refl; in_flight = λ x. cc };
                    }

module _ (w : World) (once : DrawsOnce w) (db : Db) (s : IsReady w db) where
  insert_row-IsReady :
      (row : Job) → IsNew (moment w db) row → IsReady w (insert_row row (sent db)).1
  unfolding insert_row
  insert_row-IsReady row new =
      elim (Option-cases (select_one (has_key row.queue_id row.idempotency_key) db.jobs)) [
        | inr (j, h) ↦ rw (h, insert_row) (sent-IsReady w db s)
        | inl e ↦ elim (Option-cases (select_one (λ q. q.id == row.queue_id) db.queues)) [
          | inl n ↦ rw (e, n, insert_row) (sent-IsReady w db s)
          | inr (q, h) ↦ rw (e, h, insert_row) (append-IsReady w once db s row new)
        ]
      ]

  inserted-IsReady :
      (r : Result Job)
      → Gives (IsNew (moment w db)) r
      → IsReady w ((lift r >>= insert_row) (sent db)).1
  inserted-IsReady (ok row) new = insert_row-IsReady row new
  inserted-IsReady (throws e) new = sent-IsReady w db s

insert_job-Keeps :
    (w : World) (c : Client) (queue : String) (default : ℤ) (body : Json)
    → DrawsOnce w
    → Keeps w (statement w (insert_job w.js c queue default body))
unfolding insert_job
insert_job-Keeps w c queue default body once =
    Keeps-statement w (insert_job w.js c queue default body) λ db s.
      inserted-IsReady w once db s (job_row w.js c queue default body (moment w db))
        (job_row-IsNew w.js c queue default body (moment w db))

create_job-Keeps :
    (w : World) (c : Client) (queue : String) (q : Queue) (body : Json)
    → DrawsOnce w
    → Keeps w (create_job w c queue q body)
unfolding create_job
create_job-Keeps w c queue q body once =
    Ensures-bind _ _ (insert_job-Keeps w c queue q.priority_default body once) λ row.
      Ensures-bind request_tick _ (request_tick-Keeps w)
        λ _. Keeps-lift (map_job w.js row) _ (λ v. Ensures-pure (json (Body.job v) 201) (λ _ s. s))

replay_or_create-Keeps :
    (w : World) (c : Client) (queue : String) (q : Queue) (body : Json) (existing : Option Job)
    → DrawsOnce w
    → Keeps w (replay_or_create w c queue q body existing)
replay_or_create-Keeps w c queue q body none once = create_job-Keeps w c queue q body once
replay_or_create-Keeps w c queue q body (some row) once =
    Keeps-lift (map_job w.js row) _ (λ v. Ensures-pure (json (Body.job v) 200) (λ _ s. s))

find_existing-Keeps :
    (w : World) (c : Client) (queue : String) (key : Option Json)
    → Keeps w (find_existing w c queue key)
unfolding find_existing select_existing
find_existing-Keeps w c queue key =
    Ensures-if (truthy key)
      (Keeps-quiet w (select_existing c queue key) λ m.
        IsQuiet-lift (c.uuid_param queue) _
          (λ id. IsQuiet-lift (c.text_param key) _ (λ text. read-IsQuiet _)))
      (Ensures-pure none (λ _ s. s))

submit_to-Keeps :
    (w : World) (c : Client) (queue : String) (body : Json) (found : Option Queue)
    → DrawsOnce w
    → Keeps w (submit_to w c queue body found)
submit_to-Keeps w c queue body none once = Ensures-pure _ (λ _ s. s)
submit_to-Keeps w c queue body (some q) once =
    Keeps-lift (read (read_member w.js "idempotency_key" body)) _ λ key.
      Ensures-bind _ _ (find_existing-Keeps w c queue key)
        (λ existing. replay_or_create-Keeps w c queue q body existing once)

pub submit_job-Keeps :
    (w : World) (c : Client) (org queue : String) (request : Result Json)
    → DrawsOnce w
    → Keeps w (submit_job w c org queue request)
unfolding submit_job
submit_job-Keeps w c org queue request once = Keeps-lift request _ λ body.
    Ensures-bind _ _ (Keeps-quiet w (select_queue c queue org) (select_queue-IsQuiet c queue org))
      (λ found. submit_to-Keeps w c queue body found once)
