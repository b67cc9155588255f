-- ===== src/Router.antt =====
-- dashboard/src/server/router.ts: the handlers of the API, for a caller whose organization the
-- claims name.
pub mod Submit
pub mod Retry
pub mod Listing
pub mod Queues
pub mod Paths
pub mod Login
pub mod Projects
pub mod Stats
pub mod Records
pub mod Dispatch
pub mod Soundness
use job_scheduler.Prelude.{ℕ, suc, String, Option, List}
use job_scheduler.Json.{Json}
use job_scheduler.Auth.{Env, Jose}
use job_scheduler.Db.Client.{Client}
use job_scheduler.Db.Sql.{World, Result, ok, Action}

-- `scheduleWorkerTick()`: what it starts is the scheduler's.
abbrev pub request_tick : Action (Unit {0})
request_tick db = (ok tt, record db { schedulings = suc db.schedulings })

-- What the process has: the database behind its client, the JWT library, the variables, and the
-- time in seconds that the token library reads.
pub record Server : Type 0 where
  pub world : World
  pub client : Client
  pub jose : Jose
  pub env : Env
  pub seconds : ℕ

-- `path` is the segments of the URL behind /api; the parameters are those of its query string.
pub record Request : Type 0 where
  pub method : String
  pub path : List String
  pub authorization : Option String
  pub body : Result Json
  pub status_param : Option String
  pub queue_id_param : Option String
