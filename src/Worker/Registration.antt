-- ===== src/Worker/Registration.antt =====
-- `ensureWorker` of dashboard/src/server/worker.ts.
pub mod Alive
pub mod Soundness
use job_scheduler.Prelude.{
  Bool, ℕ, String, str_eq, Option, none, some, [], ◌∷◌, ◌++◌, ◌==◌, select_one, update, ◌≡◌, refl,
  inl, inr, List, Option-cases,
}
use job_scheduler.Db.{Db, Worker, active, Heartbeat}
use job_scheduler.Db.Sql.{World, Moment, ok, throws, Query, Action, statement, pure, ◌>>=◌, ◌>>◌}

abbrev pub worker_name : String
worker_name = "vercel-worker-1"

-- `SELECT id FROM workers WHERE name = WORKER_NAME LIMIT 1`
abbrev pub select_worker : Query (Option Worker)
select_worker m db = (ok (select_one (λ w. str_eq w.name worker_name) db.workers), db)

abbrev heartbeat : Moment → ℕ → Heartbeat
heartbeat m id = record {
  id = m.fresh;
  worker_id = id;
  last_seen_at = m.now;
  metadata = none;
  created_at = m.now;
  updated_at = m.now;
}

abbrev beats : ℕ → Heartbeat → Bool
beats id h = h.worker_id == id

abbrev touch : ℕ → Heartbeat → Heartbeat
touch now h = record h { last_seen_at = now; updated_at = now }

-- `INSERT … ON CONFLICT (worker_id) DO UPDATE SET last_seen_at = NOW(), updated_at = NOW()`
unfoldable pub upsert_heartbeat : ℕ → Query (Unit {0})
upsert_heartbeat id m db = (
  ok tt,
  record db {
    heartbeats = elim (select_one (beats id) db.heartbeats) [
      | none ↦ db.heartbeats ++ heartbeat m id ∷ []
      | some _ ↦ update (beats id) (touch m.now) db.heartbeats
    ];
  },
)

-- A second heartbeat of one worker violates the table's UNIQUE (worker_id).
unfoldable pub insert_heartbeat : ℕ → Query (Unit {0})
insert_heartbeat id m db = elim (select_one (beats id) db.heartbeats) [
  | none ↦ (ok tt, record db { heartbeats = db.heartbeats ++ heartbeat m id ∷ [] })
  | some _ ↦ (throws "duplicate key value violates unique constraint", db)
]

-- It writes no other table.
pub insert_heartbeat-same :
    (id : ℕ) (m : Moment) (db : Db)
    → (hs : List Heartbeat) × ((insert_heartbeat id m db).1 ≡ record db { heartbeats = hs })
unfolding insert_heartbeat
insert_heartbeat-same id m db = elim (Option-cases (select_one (beats id) db.heartbeats)) [
  | inl e ↦ (db.heartbeats ++ heartbeat m id ∷ [], rw (e, insert_heartbeat) refl)
  | inr (h, e) ↦ (db.heartbeats, rw (e, insert_heartbeat) refl)
]

abbrev activate : ℕ → Worker → Worker
activate now w = record w { status = active; updated_at = now }

unfoldable pub activate_worker : ℕ → Query (Unit {0})
activate_worker id m db =
    (ok tt, record db { workers = update (λ w. w.id == id) (activate m.now) db.workers })

abbrev new_worker : Moment → Worker
new_worker m = record {
  id = m.fresh;
  name = worker_name;
  status = active;
  meta = none;
  created_at = m.now;
  updated_at = m.now;
}

unfoldable pub insert_worker : Query ℕ
insert_worker m db = (ok m.fresh, record db { workers = db.workers ++ new_worker m ∷ [] })

-- The two ways on of `ensureWorker`.
abbrev pub register : World → Option Worker → Action ℕ
register w (some row) = do
  statement w (upsert_heartbeat row.id)
  statement w (activate_worker row.id)
  pure row.id
register w none = do id ← statement w insert_worker; statement w (insert_heartbeat id); pure id

unfoldable pub ensure_worker : World → Action ℕ
ensure_worker w = do row ← statement w select_worker; register w row
