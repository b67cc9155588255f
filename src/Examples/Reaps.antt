-- ===== src/Examples/Reaps.antt =====
-- A worker that died: its job is running under a lease that has run out.
use job_scheduler.Prelude.{◌≡◌, refl, [], ◌∷◌, some}
use job_scheduler.Db.{Db, Job, running, empty}
use job_scheduler.Db.Sql.{ok, sent}
use job_scheduler.Worker.Reaper.{reaper}
use job_scheduler.Worker.Reaper.Recovery.{Each, Reaped, reaper_exact}
use job_scheduler.Samples.{calm, low}

abbrev pub orphan : Job
orphan = record low {
  status = running;
  attempts = 1;
  worker_id = some 77;
  claimed_at = some 20_000;
  lease_expires_at = some 50_000;
}

abbrev pub abandoned : Db
abandoned = record empty { jobs = orphan ∷ [] }

reaper_exact_example :
    ((reaper calm abandoned).0 ≡ ok tt)
    × Each (Reaped 100_000) abandoned.jobs (reaper calm abandoned).1.jobs
    × ((reaper calm abandoned).1
        ≡ record (sent abandoned) { jobs = (reaper calm abandoned).1.jobs })
reaper_exact_example = reaper_exact calm abandoned refl
