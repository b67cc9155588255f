-- ===== src/Router/Queues.antt =====
-- The handlers of queues in dashboard/src/server/router.ts: `GET queues`, `PUT queues/:id`,
-- `POST queues/:id/pause` and `POST queues/:id/resume`.
pub mod Pausing
use job_scheduler.Prelude.{
  ℕ, ℤ, pos, String, Bool, true, false, Option, none, some, List, [], ◌∷◌, ◌++◌, map, ◌==◌, ◌&&◌,
  leb, str_eq, select, select_one, update, sort_by, inl, inr, ◌⊎◌,
}
use job_scheduler.Json.{Json, null, num, member, read_member, to_text}
use job_scheduler.Db.{Db, Project, Queue}
use job_scheduler.Db.Client.{Client, not_null, is_queue_in}
use job_scheduler.Db.Sql.{
  World, Moment, Result, ok, throws, Query, Action, statement, pure, lift, ◌>>=◌, ◌>>◌, ◌>>?◌,
}
use job_scheduler.Http.{Response, Body, json, error, map_queue}
use job_scheduler.Router.Submit.{nullish, read}

-- `ORDER BY q.created_at`
unfoldable pub is_older : Queue → Queue → Bool
is_older a b = leb a.created_at b.created_at

unfoldable pub select_queues : Client → String → Query (List Queue)
unfolding is_older
select_queues c org m = do
  org_id ← lift (c.uuid_param org)
  λ db. (ok (sort_by is_older (select (is_queue_in org_id db) db.queues)), db)

unfoldable pub list_queues : World → Client → String → Action Response
unfolding select_queues map_queue
list_queues w c org = do
  rows ← statement w (select_queues c org)
  pure (json (Body.queues (map (map_queue w.js) rows)) 200)

-- `SET paused = …, updated_at = NOW()`
unfoldable pub set_paused : Bool → ℕ → Queue → Queue
set_paused paused now q = record q { paused = paused; updated_at = now }

-- `q.id = queueId AND p.org_id = orgId`, with the JOIN.
unfoldable pub is_addressed : ℕ → ℕ → Db → Queue → Bool
unfolding is_queue_in
is_addressed id org_id db q = (q.id == id) && is_queue_in org_id db q

unfoldable pub update_paused : Bool → Client → String → String → Query (Unit {0})
unfolding is_addressed set_paused
update_paused paused c queue org m = do
  id ← lift (c.uuid_param queue)
  org_id ← lift (c.uuid_param org)
  λ db. (
    ok tt,
    record db { queues = update (is_addressed id org_id db) (set_paused paused m.now) db.queues },
  )

unfoldable pub pause_queue : World → Client → String → String → Action Response
unfolding update_paused
pause_queue w c org queue = do
  statement w (update_paused true c queue org)
  pure (json Body.nothing 204)

unfoldable pub resume_queue : World → Client → String → String → Action Response
unfolding update_paused
resume_queue w c org queue = do
  statement w (update_paused false c queue org)
  pure (json Body.nothing 204)

-- `COALESCE(v, old)`
abbrev coalesce {ℓ} : {A : Type ℓ} → Option A → A → A
coalesce none old = old
coalesce (some v) old = v

abbrev coalesce_limit : Option ℤ → Option ℤ → Option ℤ
coalesce_limit none old = old
coalesce_limit (some v) old = some v

unfoldable pub edit_queue : ℕ → Option String → Option ℤ → Option ℤ → Queue → Queue
edit_queue now name priority limit q = record q {
  name = coalesce name q.name;
  priority_default = coalesce priority q.priority_default;
  concurrency_limit = coalesce_limit limit q.concurrency_limit;
  updated_at = now;
}

-- The row that RETURNING gives, and the tables after the update.
unfoldable pub update_addressed : (Queue → Queue) → ℕ → ℕ → Action (Option Queue)
unfolding is_addressed
update_addressed f id org_id db =
    let rows = update (is_addressed id org_id db) f db.queues in
    (ok (select_one (is_addressed id org_id db) rows), record db { queues = rows })

unfoldable pub update_queue_row : Client → String → String → Json → Query (Option Queue)
unfolding edit_queue update_addressed member
update_queue_row c queue org body m = do
  name ← lift (c.text_param (nullish (member "name" body) (some null)))
  priority ← lift (c.int_param (nullish (member "priority_default" body) (some null)))
  limit ← lift (c.int_param (nullish (member "concurrency_limit" body) (some null)))
  id ← lift (c.uuid_param queue)
  org_id ← lift (c.uuid_param org)
  update_addressed (edit_queue m.now name priority limit) id org_id

abbrev pub show_queue : World → Option Queue → Action Response
show_queue w none = pure (error "not found" 404 "ERROR")
show_queue w (some row) = pure (json (Body.queue (map_queue w.js row)) 200)

-- Reading `body.name` throws if the body is null.
unfoldable pub update_queue : World → Client → String → String → Result Json → Action Response
unfolding update_queue_row map_queue
update_queue w c org queue request = do
  body ← lift request
  _ ← lift (read (read_member w.js "name" body))
  row ← statement w (update_queue_row c queue org body)
  show_queue w row
