-- ===== src/Entry/History.antt =====
-- What happens to the tables over the life of the process: requests to the API, calls of the cron
-- job and of the setup, and ticks that the scheduler starts, one after the other.
use job_scheduler.Prelude.{ℕ, String, Option, List, [], ◌∷◌}
use job_scheduler.Db.{Db}
use job_scheduler.Db.Ensures.{Ensures-after}
use job_scheduler.Router.{Server, Request}
use job_scheduler.Router.Soundness.{DrawsOnce, IsReady}
use job_scheduler.Router.Soundness.Requests.{handle_api-IsReady}
use job_scheduler.Worker.Invariant.{IsSound}
use job_scheduler.Worker.Tick.{run_worker_tick}
use job_scheduler.Router.Login.{get_sql}
use job_scheduler.Entry.{connected_tick, cron_worker, setup, dispatch}
use job_scheduler.Entry.Soundness.{connected_tick-Keeps, cron_worker-IsReady, setup-IsReady}

-- A request comes at a time in seconds, with the segments of its URL; the cron job and the setup are
-- called with a header.
pub data Event : Type 0 where
  requested : ℕ → Request → Option (List String) → Event
  called_cron called_setup : Option String → Event
  ticked : Event

unfoldable pub happens : Server → Event → Db → Db
unfolding dispatch cron_worker setup run_worker_tick get_sql
happens s (requested seconds r path) db = (dispatch (record s { seconds = seconds }) r path db).1
happens s (called_cron authorization) db = (cron_worker s authorization db).1
happens s (called_setup authorization) db = (setup s authorization db).1
happens s ticked db = (connected_tick s db).1

unfoldable pub history : Server → List Event → Db → Db
unfolding happens
history s [] db = db
history s (e ∷ events) db = history s events (happens s e db)

happens-IsReady :
    (s : Server) (e : Event) (db : Db)
    → DrawsOnce s.world
    → IsReady s.world db
    → IsReady s.world (happens s e db)
unfolding happens dispatch
happens-IsReady s (requested seconds r path) db once h =
    handle_api-IsReady (record s { seconds = seconds }) _ db once h
happens-IsReady s (called_cron authorization) db once h = cron_worker-IsReady s authorization db h
happens-IsReady s (called_setup authorization) db once h = setup-IsReady s authorization db once h
happens-IsReady s ticked db once h = Ensures-after (connected_tick s) db (connected_tick-Keeps s) h

-- Where gen_random_uuid() gives no id twice and the tables start sound, with no job that has an id
-- still to be given: after any sequence of API requests, calls of the cron job and of the setup, and
-- ticks, whatever they ask and whichever statements fail, job ids are different, each worker has at
-- most one heartbeat and each job at most one dead letter, and a job has a worker and a lease exactly
-- if it is claimed or running.
pub history-IsSound :
    (s : Server) (events : List Event) (db : Db)
    → DrawsOnce s.world
    → IsReady s.world db
    → IsSound (history s events db)
unfolding history
history-IsSound s [] db once h = h.sound
history-IsSound s (e ∷ events) db once h =
    history-IsSound s events (happens s e db) once (happens-IsReady s e db once h)
