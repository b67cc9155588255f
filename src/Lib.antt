-- ===== src/Lib.antt =====
-- The job scheduler of dashboard/src/server: an HTTP API that takes jobs into queues, and a worker
-- that runs inside the requests, claims due jobs, runs them, and retries or buries those that fail.
--
-- The parts, and where they are:
--   Db             the tables that dashboard/src/server/setup.ts creates, a list of rows each
--   Db.Sql         how a statement runs: `World` is what the server, the clock and the network do
--   Db.Client      what a request's values become as parameters of a statement
--   Db.Ensures     postconditions under any failure; Db.Served: runs in which nothing fails
--   Worker         dashboard/src/server/worker.ts: Registration (ensureWorker), Reaper (reaper),
--                  Claim (the budget and the claim), Execute (executeJob), Tick (runWorkerTick),
--                  Lifecycle (what a tick may do with a job), Program (a tick as its statements, for
--                  ticks that run at once)
--   Scheduler      dashboard/src/server/worker-scheduler.ts: its two variables and its events
--   Http           dashboard/src/server/http.ts: responses, mapQueue, mapJob
--   Auth           dashboard/src/server/auth.ts: tokens
--   Router         dashboard/src/server/router.ts: the handlers of requests; Dispatch (handleApi),
--                  Paths (its patterns), Login with dashboard/src/server/db.ts
--   Setup          dashboard/src/server/setup.ts: seedDemo, resolveDemoUser
--   Entry          dashboard/src/app/api: the routes of the API, the cron job and the setup; History,
--                  the sequences of all of them and of ticks
--   Console        dashboard/src/lib: Data (types.ts), Api (api.ts), Keys (use-api.ts), Format, Status;
--                  and the state of the components and pages: Submit and NewQueue (the forms), Provider,
--                  Explorer (jobs), QueueDrawer, Palette, Session (sign-in and guard), Overview;
--                  Pages (what the pages show of the answers)
--   Json           JSON values, and the conversions of JavaScript that the code applies to them
--   Prelude        lists as tables, tests, integers, lemmas
--   Samples, Examples  small inputs, and each theorem applied to one
--
-- How they interact: a handler of Router answers from the tables and may call scheduleWorkerTick,
-- which Scheduler decides on and which runs the tick of Worker; both read and write the tables of
-- Db, by statements of Db.Sql alone. Console sends the requests that Router.Dispatch serves and reads
-- their answers. Db counts the statements sent and the calls of
-- scheduleWorkerTick.
--
-- A statement is one transaction: it runs whole at one time NOW(), or it is refused, or it runs and
-- its answer is lost; an exception leaves the tables as they are. Each run is one sequence of
-- statements, and what others hold locked is a part of `World`. Ticks that interleave are
-- Worker.Program: a schedule, a list of numbers, says which of them sends the next statement. The
-- requests, calls and ticks of an Entry.History each end before the next begins.
--
-- Choices. UUIDs are numbers, times are milliseconds, columns that may be NULL are options. Numbers
-- in JSON are integers; the range of INT columns is not modelled. Rows that ORDER BY leaves tied,
-- and the rows of RETURNING, come in table order. ORDER BY is an insertion sort; no definition runs
-- on fuel, since every loop of the code is over a list of rows. The two INSERT statements of a job
-- differ in the delay alone and are one definition. JSON.parse, String(v), Number(text), the JWT
-- library, the SQL client's conversions and the environment are records of functions, and what a
-- theorem needs of them is among its hypotheses.
--
-- A React component is the record of its state; its handlers and effects are functions on it, and a
-- handler that awaits a request takes the reply that the request gets.
--
-- String(v) and Number(v) throw for some objects; that is modelled where the worker runs a payload.
-- The handlers' conversions of a request's fields are taken not to throw.
--
-- Quotients that the code computes as floats are pairs of their terms. Ids and times are texts in
-- the console, as it receives them. The tables exist from the start, so that each statement of
-- ensureSchema finds what it would create.
--
-- Not modelled: the connection to the database (I/O), the layout and styles of the pages, the
-- drawing on the canvas and the chart, the cache of SWR, and the Go services of cmd, internal and pkg, which are
-- a second implementation.
pub mod Prelude
pub mod Json
pub mod Db
pub mod Worker
pub mod Scheduler
pub mod Http
pub mod Auth
pub mod Router
pub mod Setup
pub mod Entry
pub mod Console
mod Samples
mod Examples
