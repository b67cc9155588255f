-- ===== src/Router/Submit.antt =====
-- `POST queues/:id/jobs` of dashboard/src/server/router.ts.
pub mod Replay
pub mod Keys
use job_scheduler.Prelude.{
  ℕ, ◌+◌, ◌*◌, ℤ, pos, negsuc, String, Bool, true, false, Option, none, some, [], ◌∷◌, ◌++◌, ◌==◌,
  ◌&&◌, str_eq, select_one, if◌then◌else◌, inl, inr, ◌⊎◌,
}
use job_scheduler.Json.{Json, Js, null, num, truthy, member, read_member, number_or}
use job_scheduler.Db.{Db, Queue, Job, queued}
use job_scheduler.Db.Client.{Client, not_null, is_queue_in}
use job_scheduler.Db.Sql.{
  World, Moment, Result, ok, throws, Query, Action, statement, pure, lift, ◌>>?◌, ◌>>=◌, ◌>>◌,
}
use job_scheduler.Http.{Response, Body, json, error, map_job}
use job_scheduler.Router.{request_tick}

-- `SELECT q.id, q.priority_default … WHERE q.id = queueId AND p.org_id = orgId`
unfoldable pub select_queue : Client → String → String → Query (Option Queue)
unfolding is_queue_in
select_queue c queue org m = do
  id ← lift (c.uuid_param queue)
  org_id ← lift (c.uuid_param org)
  λ db. (ok (select_one (λ q. (q.id == id) && is_queue_in org_id db q) db.queues), db)

-- `queue_id = id AND idempotency_key = key`, which NULL never meets.
abbrev pub has_key : ℕ → Option String → Job → Bool
has_key id none j = false
has_key id (some key) j = elim j.idempotency_key [
  | none ↦ false
  | some k ↦ (j.queue_id == id) && str_eq k key
]

-- `SELECT * FROM jobs WHERE queue_id = … AND idempotency_key = … LIMIT 1`
unfoldable pub select_existing : Client → String → Option Json → Query (Option Job)
select_existing c queue key m = do
  id ← lift (c.uuid_param queue)
  text ← lift (c.text_param key)
  λ db. (ok (select_one (has_key id text) db.jobs), db)

-- The idempotency check: nothing is looked up without a key.
unfoldable pub find_existing : World → Client → String → Option Json → Action (Option Job)
unfolding truthy select_existing
find_existing w c queue key =
    if truthy key then statement w (select_existing c queue key) else pure none

-- `v ?? d`
abbrev pub nullish : Option Json → Option Json → Option Json
nullish none d = d
nullish (some null) d = d
nullish (some v) d = some v

-- `NOW() + (delaySec * interval '1 second')` for a positive delay, NOW() for another.
abbrev pub due : ℤ → ℕ → ℕ
due (pos seconds) now = now + seconds * 1000
due (negsuc _) now = now

-- The unique index on (queue_id, idempotency_key), then the foreign key.
unfoldable pub insert_row : Job → Action Job
insert_row row db = elim (select_one (has_key row.queue_id row.idempotency_key) db.jobs) [
  | some _ ↦ (throws "duplicate key value violates unique constraint", db)
  | none ↦ elim (select_one (λ q. q.id == row.queue_id) db.queues) [
    | none ↦ (throws "insert or update violates foreign key constraint", db)
    | some _ ↦ (ok row, record db { jobs = db.jobs ++ row ∷ [] })
  ]
]

abbrev pub new_job : Moment → ℕ → ℤ → Json → Option String → ℤ → ℤ → Option String → Job
new_job m queue_id priority payload key max_attempts delay cron_expr = record {
  id = m.fresh;
  queue_id = queue_id;
  status = queued;
  priority = priority;
  payload = payload;
  idempotency_key = key;
  next_run_at = some (due delay m.now);
  attempts = 0;
  max_attempts = max_attempts;
  retry_policy_id = none;
  worker_id = none;
  claimed_at = none;
  lease_expires_at = none;
  completed_at = none;
  failed_at = none;
  error_message = none;
  cron_expr = cron_expr;
  batch_id = none;
  created_at = m.now;
  updated_at = m.now;
}

-- The row of both INSERT statements of the handler, which differ in the delay alone.
unfoldable pub job_row : Js → Client → String → ℤ → Json → Moment → Result Job
unfolding member number_or
job_row js c queue default body m = c.uuid_param queue >>? λ queue_id.
    (c.int_param (nullish (member "priority" body) (some (num default))) >>? not_null)
    >>? λ priority. (c.jsonb_param (member "payload" body) >>? not_null) >>? λ payload.
        c.text_param (nullish (member "idempotency_key" body) (some null)) >>? λ key.
        (c.int_param (nullish (member "max_attempts" body) (some (num (pos 3)))) >>? not_null)
        >>? λ max. c.text_param (nullish (member "cron_expr" body) (some null)) >>? λ cron_expr.
            ok (
              new_job m queue_id priority payload key max
                (number_or js (member "delay_seconds" body) (pos 0)) cron_expr)

unfoldable pub insert_job : Js → Client → String → ℤ → Json → Query Job
unfolding job_row insert_row
insert_job js c queue default body m = do
  row ← lift (job_row js c queue default body m)
  insert_row row

-- What reading a field of the body gives, or the TypeError it throws.
abbrev pub read : Option Json ⊎ String → Result (Option Json)
read (inl v) = ok v
read (inr message) = throws message

-- The handler with the rows that it has looked up.
unfoldable pub create_job : World → Client → String → Queue → Json → Action Response
unfolding insert_job map_job
create_job w c queue q body = do
  row ← statement w (insert_job w.js c queue q.priority_default body)
  request_tick
  v ← lift (map_job w.js row)
  pure (json (Body.job v) 201)

abbrev pub replay_or_create : World → Client → String → Queue → Json → Option Job → Action Response
replay_or_create w c queue q body none = create_job w c queue q body
replay_or_create w c queue q body (some row) = do
  v ← lift (map_job w.js row)
  pure (json (Body.job v) 200)

abbrev pub submit_to : World → Client → String → Json → Option Queue → Action Response
submit_to w c queue body none = pure (error "not found" 404 "ERROR")
submit_to w c queue body (some q) = do
  key ← lift (read (read_member w.js "idempotency_key" body))
  existing ← find_existing w c queue key
  replay_or_create w c queue q body existing

unfoldable pub submit_job : World → Client → String → String → Result Json → Action Response
unfolding select_queue find_existing create_job
submit_job w c org queue request = do
  body ← lift request
  found ← statement w (select_queue c queue org)
  submit_to w c queue body found
