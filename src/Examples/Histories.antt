-- ===== src/Examples/Histories.antt =====
-- A life of the process: the setup, a tick, a request without a token and the cron job.
use job_scheduler.Prelude.{◌≡◌, refl, none, some, [], ◌∷◌, List, arith, map, insert_sorted}
use job_scheduler.Db.{completed, empty}
use job_scheduler.Db.Sql.{statement}
use job_scheduler.Json
use job_scheduler.Setup
use job_scheduler.Setup.{
  insert_organization, insert_user, insert_project, insert_seed_job, insert_seed_worker, seed_queue,
  seed_queues, plant, seed_demo,
}
use job_scheduler.Router.Login.{get_sql, get_url}
use job_scheduler.Worker.Registration
use job_scheduler.Worker.Reaper
use job_scheduler.Worker.Claim
use job_scheduler.Worker.Execute
use job_scheduler.Worker.Tick
use job_scheduler.Worker.Invariant.{IsSound}
use job_scheduler.Entry.{setup, is_forbidden, ensure_schema, create_all}
use job_scheduler.Router.Soundness.{DrawsOnce, IsReady}
use job_scheduler.Entry.History.{
  Event, happens, requested, called_cron, called_setup, ticked, history, history-IsSound,
}
use job_scheduler.Samples.{calm, busy}
use job_scheduler.Examples.Api.{server, anonymous}
use job_scheduler.Examples.Ticks.{busy-IsSound}

abbrev events : List Event
events =
    called_setup none
    ∷ ticked
    ∷ requested 200 anonymous (some ("queues" ∷ "queue-10" ∷ "pause" ∷ []))
    ∷ called_cron none
    ∷ []

calm-DrawsOnce : DrawsOnce calm
calm-DrawsOnce m n e = omega (arith, e)

busy-IsReady : IsReady calm busy
busy-IsReady = record {
  sound = busy-IsSound;
  unused =
      λ n h. ((λ e. omega (arith, e)), ((λ e. omega (arith, e)), ((λ e. omega (arith, e)), tt)));
}

history-IsSound_example : IsSound (history server events busy)
history-IsSound_example = history-IsSound server events busy calm-DrawsOnce busy-IsReady

-- The setup plants nine jobs, and a tick completes them all, since each queue has room for three.
setup_then_tick :
    map (λ j. j.status) (history server (called_setup none ∷ ticked ∷ []) empty).jobs
    ≡ completed ∷ completed ∷ completed ∷ completed ∷ completed ∷ completed ∷ completed ∷ completed
      ∷ completed ∷ []
unfolding history happens setup is_forbidden ensure_schema create_all seed_demo plant seed_queues
    seed_queue insert_organization insert_user insert_project Setup.insert_queue insert_seed_job
    insert_seed_worker get_sql get_url Tick.run_worker_tick statement Reaper.reaper
    Registration.ensure_worker Registration.insert_heartbeat Registration.insert_worker
    Claim.select_budget Claim.claim Claim.lease_job Claim.rank insert_sorted Claim.is_claimable
    Claim.ranks_before Claim.in_flight_of Execute.execute_job Execute.update_job
    Execute.insert_execution Execute.insert_log Execute.finish_execution Json.member
    Registration.upsert_heartbeat Registration.activate_worker
setup_then_tick = refl
