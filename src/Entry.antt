-- ===== src/Entry.antt =====
-- The route files under dashboard/src/app/api: [[...path]]/route.ts, cron/worker/route.ts and
-- setup/route.ts, and `ensureSchema` of dashboard/src/server/setup.ts. The tables of the model exist
-- from the start, so that each statement of `ensureSchema` finds what it would create.
pub mod Guards
pub mod Soundness
pub mod History
use job_scheduler.Prelude.{
  ℕ, zero, suc, String, Bool, true, false, Option, none, some, List, [], ◌||◌, ◌&&◌, not, str_eq,
  if◌then◌else◌, ◌<>◌,
}
use job_scheduler.Db.{Db, User}
use job_scheduler.Db.Sql.{
  World, Result, ok, throws, Query, Action, statement, pure, lift, ◌>>=◌, ◌>>◌,
}
use job_scheduler.Auth.{or_else}
use job_scheduler.Http.{Response, Body, json, error}
use job_scheduler.Worker.Tick.{run_worker_tick}
use job_scheduler.Setup.{seed_demo}
use job_scheduler.Router.{Server, Request}
use job_scheduler.Router.Dispatch.{handle_api}
use job_scheduler.Router.Login.{get_sql}

-- `auth !== `Bearer ${secret}``, where the secret is set and not empty.
unfoldable pub is_forbidden : String → Option String → Bool
is_forbidden secret none = not (str_eq secret "")
is_forbidden secret (some auth) = not (str_eq secret "") && not (str_eq auth ("Bearer " <> secret))

abbrev pub forbidden : Response
forbidden = error "forbidden" 403 "FORBIDDEN"

-- The catch clauses of the two routes.
abbrev pub answered : Result Response × Db → Response × Db
answered (ok response, db) = (response, db)
answered (throws message, db) = (error message 500 "ERROR", db)

-- `runWorkerTick()` with its `getSql()`, which throws if no database is configured.
abbrev pub connected_tick : Server → Action ℕ
connected_tick s = lift (get_sql s.env) >> run_worker_tick s.world

abbrev pub report : Server → Action Response
report s = do processed ← connected_tick s; pure (json (Body.tick processed) 200)

-- GET /api/cron/worker
unfoldable pub cron_worker : Server → Option String → Db → Response × Db
unfolding is_forbidden get_sql
cron_worker s authorization db =
    if is_forbidden (or_else s.env.cron_secret "") authorization
    then (forbidden, db)
    else answered (report s db)

-- The statements of STATEMENTS: an extension, two types, a function, ten tables and six indexes.
abbrev pub schema_statements : ℕ
schema_statements = 20

abbrev pub find_existing : Query (Unit {0})
find_existing m db = (ok tt, db)

unfoldable pub create_all : World → ℕ → Action (Unit {0})
create_all w zero = pure tt
create_all w (suc n) = statement w find_existing >> create_all w n

unfoldable pub ensure_schema : World → Action (Unit {0})
unfolding create_all
ensure_schema w = create_all w schema_statements

abbrev pub prepare : Server → Action Response
prepare s = do ensure_schema s.world; user ← seed_demo s.world; pure (json (Body.planted user) 200)

abbrev pub connected : Server → Db → Result Response × Db
connected s db = elim (get_sql s.env) [
  | throws message ↦ (throws message, db)
  | ok _ ↦ prepare s db
]

-- POST /api/setup
unfoldable pub setup : Server → Option String → Db → Response × Db
unfolding is_forbidden ensure_schema seed_demo get_sql
setup s authorization db =
    if is_forbidden (or_else s.env.setup_secret (or_else s.env.cron_secret "")) authorization
    then (forbidden, db)
    else answered (connected s db)

-- GET /api/setup
abbrev pub setup_hint : Response
setup_hint = json Body.hint 200

-- GET, POST, PUT and DELETE of [[...path]]: a URL without segments has no `path`.
abbrev given_path : Option (List String) → List String
given_path none = []
given_path (some path) = path

unfoldable pub dispatch : Server → Request → Option (List String) → Db → Response × Db
dispatch s r path db = handle_api s (record r { path = given_path path }) db
