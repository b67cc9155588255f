-- ===== src/Router/Submit/Keys.antt =====
-- The idempotency keys of a queue stay unique, whatever fails.
use job_scheduler.Prelude.{
  ℤ, ℕ, ◌≡◌, String, Bool, false, Option, none, some, List, [], ◌∷◌, ◌++◌, ◌==◌, ◌&&◌, select_one,
  All, inl, inr, Option-cases, Bool-cases,
}
use job_scheduler.Json.{Json, Js, read_member, truthy}
use job_scheduler.Db.{Db, Queue, Job}
use job_scheduler.Db.Client.{Client, is_queue_in}
use job_scheduler.Db.Sql.{World, Result, ok, throws, lift, Moment, Query, Action, statement, ◌>>=◌}
use job_scheduler.Db.Ensures.{
  Ensures, Ensures-bind, Ensures-lift, Ensures-pure, Ensures-if, Ensures-keeps, Ensures-after, Post,
}
use job_scheduler.Router.{request_tick}
use job_scheduler.Http.{map_job, Body, json, error}
use job_scheduler.Router.Submit.{
  read, has_key, select_queue, select_existing, find_existing, insert_row, job_row, insert_job,
  create_job, replay_or_create, submit_to, submit_job,
}

-- Two jobs of one queue with one key.
abbrev pub clash : Job → Job → Bool
clash j k = has_key j.queue_id j.idempotency_key k

abbrev pub KeysOnce : List Job → Type 0
KeysOnce [] = Unit
KeysOnce (j ∷ js) = All (λ k. clash k j ≡ false) js × KeysOnce js

select_one-none :
    (p : Job → Bool) (js : List Job) → select_one p js ≡ none → All (λ j. p j ≡ false) js
select_one-none p [] e = tt
select_one-none p (j ∷ js) e = elim (Bool-cases (p j)) [
  | inl h ↦ cc (rw h at e)
  | inr h ↦ (h, select_one-none p js (rw h at e))
]

All-snoc : (P : Job → Type 0) (js : List Job) (j : Job) → All P js → P j → All P (js ++ j ∷ [])
All-snoc P [] j a p = (p, tt)
All-snoc P (k ∷ ks) j a p = (a.0, All-snoc P ks j a.1 p)

KeysOnce-snoc :
    (js : List Job) (j : Job)
    → KeysOnce js
    → All (λ k. clash j k ≡ false) js
    → KeysOnce (js ++ j ∷ [])
KeysOnce-snoc [] j once free = (tt, tt)
KeysOnce-snoc (k ∷ ks) j once free =
    (All-snoc (λ i. clash i k ≡ false) ks j once.0 free.0, KeysOnce-snoc ks j once.1 free.1)

abbrev pub HasKeysOnce : Db → Type 0
HasKeysOnce db = KeysOnce db.jobs

insert_row-keeps : (row : Job) (db : Db) → HasKeysOnce db → HasKeysOnce (insert_row row db).1
unfolding insert_row
insert_row-keeps row db once = elim (Option-cases (select_one (clash row) db.jobs)) [
  | inl e ↦ elim (Option-cases (select_one (λ q. q.id == row.queue_id) db.queues)) [
    | inl n ↦ rw (e, n, insert_row) once
    | inr (q, h) ↦
        rw (e, h, insert_row)
          (KeysOnce-snoc db.jobs row once (select_one-none (clash row) db.jobs e))
  ]
  | inr (j, h) ↦ rw (h, insert_row) once
]

abbrev Keeps : {A : Type 0} → Action A → Type 0
Keeps m = Ensures HasKeysOnce HasKeysOnce m (λ _. HasKeysOnce)

lifted :
    {A B : Type 0} (r : Result A) (f : A → Action B)
    → ((a : A) → Keeps (f a))
    → Keeps (lift r >>= f)
lifted r f h = Ensures-bind (lift r) f (Ensures-lift r (λ _ s. s) (λ _ _ s. s)) h

stated :
    {A : Type 0} (w : World) (query : Query A)
    → ((m : Moment) → Keeps (query m))
    → Keeps (statement w query)
stated w query h = Ensures-keeps w query (λ _ s. s) (λ m db s. Ensures-after (query m) db (h m) s)

-- A property of the tables alone, whatever the result is.
all :
    {A : Type 0} (r : Result A) (db : Db)
    → HasKeysOnce db
    → Post HasKeysOnce (λ _. HasKeysOnce) r db
all (ok a) db s = s
all (throws message) db s = s

insert_job-Keeps :
    (js : Js) (c : Client) (queue : String) (d : ℤ) (body : Json) (m : Moment)
    → Keeps (insert_job js c queue d body m)
unfolding insert_job
insert_job-Keeps js c queue d body m =
    lifted (job_row js c queue d body m) insert_row
      λ row. record { at = λ db s. all (insert_row row db).0 _ (insert_row-keeps row db s) }

select_queue-Keeps :
    (c : Client) (queue org : String) (m : Moment) → Keeps (select_queue c queue org m)
unfolding select_queue
select_queue-Keeps c queue org m = lifted {A = ℕ} {B = Option Queue} (c.uuid_param queue) _ λ id.
    lifted {A = ℕ} (c.uuid_param org)
      (λ o db. (ok (select_one (λ q. (q.id == id) && is_queue_in o db q) db.queues), db))
      λ o. record { at = λ db s. s }

select_existing-Keeps :
    (c : Client) (queue : String) (key : Option Json) (m : Moment)
    → Keeps (select_existing c queue key m)
unfolding select_existing
select_existing-Keeps c queue key m = lifted {A = ℕ} {B = Option Job} (c.uuid_param queue) _ λ id.
    lifted {A = Option String} (c.text_param key)
      (λ k db. (ok (select_one (has_key id k) db.jobs), db)) λ k. record { at = λ db s. s }

find_existing-Keeps :
    (w : World) (c : Client) (queue : String) (key : Option Json)
    → Keeps (find_existing w c queue key)
unfolding find_existing
find_existing-Keeps w c queue key =
    Ensures-if (truthy key)
      (stated w (select_existing c queue key) (select_existing-Keeps c queue key))
      (Ensures-pure none (λ _ s. s))

create_job-Keeps :
    (w : World) (c : Client) (queue : String) (q : Queue) (body : Json)
    → Keeps (create_job w c queue q body)
unfolding create_job
create_job-Keeps w c queue q body =
    Ensures-bind (statement w (insert_job w.js c queue q.priority_default body)) _
      (stated w (insert_job w.js c queue q.priority_default body)
        (insert_job-Keeps w.js c queue q.priority_default body))
      λ row.
        Ensures-bind request_tick _ (record { at = λ _ s. s })
          λ _. lifted (map_job w.js row) _ λ v. Ensures-pure (json (Body.job v) 201) (λ _ s. s)

submit_job-Keeps :
    (w : World) (c : Client) (org queue : String) (request : Result Json)
    → Keeps (submit_job w c org queue request)
unfolding submit_job
submit_job-Keeps w c org queue request = lifted request _ λ body.
    Ensures-bind (statement w (select_queue c queue org)) (submit_to w c queue body)
      (stated w (select_queue c queue org) (select_queue-Keeps c queue org)) λ o. to body o
  where
    go : (body : Json) (q : Queue) (o : Option Job) → Keeps (replay_or_create w c queue q body o)
    go body q none = create_job-Keeps w c queue q body
    go body q (some row) =
        lifted (map_job w.js row) _ λ v. Ensures-pure (json (Body.job v) 200) (λ _ s. s)

    to : (body : Json) (o : Option Queue) → Keeps (submit_to w c queue body o)
    to body none = Ensures-pure (error "not found" 404 "ERROR") (λ _ s. s)
    to body (some q) = lifted (read (read_member w.js "idempotency_key" body)) _ λ key.
        Ensures-bind (find_existing w c queue key) (replay_or_create w c queue q body)
          (find_existing-Keeps w c queue key) (go body q)

-- If no two jobs of one queue have the same idempotency key, then so it is after a submission,
-- whatever the request and whatever statement fails.
pub submit-KeysOnce :
    (w : World) (c : Client) (org queue : String) (request : Result Json) (db : Db)
    → KeysOnce db.jobs
    → KeysOnce (submit_job w c org queue request db).1.jobs
submit-KeysOnce w c org queue request db once =
    Ensures-after (submit_job w c org queue request) db (submit_job-Keeps w c org queue request)
      once
