-- ===== src/Worker/Tick/Refinement.antt =====
-- A tick refines the life of a job: whatever it does to the tables, each job has moved as
-- Worker.Lifecycle allows.
use job_scheduler.Prelude.{true, ℕ, ◌≡◌, subst, List, [], Distinct, arith}
use job_scheduler.Db.{Db, Job}
use job_scheduler.Db.Sql.{World, Result, ok, throws, statement, and_then}
use job_scheduler.Worker.Lifecycle.{
  Rows, Rows-refl, Rows-map, Rows-trans, Distinct-Rows, Lives, Lives-refl, Lives-Moved, Moved-Lives,
  final, final-Moves, phase_of,
}
use job_scheduler.Worker.Program.{Program, done, fails, query, measure, resume, step, tick}
use job_scheduler.Worker.Program.Owned.{IsOwned, Safe}
use job_scheduler.Worker.Program.Kept.{Safe-tick}
use job_scheduler.Worker.Program.Stepped.{Stepped, step-Stepped}
use job_scheduler.Worker.Program.Alone.{run, run-tick}
use job_scheduler.Worker.Tick.{run_worker_tick}

abbrev Refined : World → Program ℕ → Type 0
Refined w p =
    (held : List Job) (db : Db)
    → Distinct (λ j. j.id) db.jobs
    → IsOwned 0 held db.jobs
    → Safe 0 (λ _ h. h ≡ []) held p
    → Rows Lives db.jobs (run w p db).1.jobs

answered :
    {B : Type 0} (w : World) (held : List Job) (now : ℕ) (jobs : List Job) (k : B → Program ℕ)
    (r : Result B) (after : Db)
    → ((b : B) → Refined w (k b))
    → Distinct (λ j. j.id) jobs
    → Stepped 0 held now jobs (resume k r) after
    → Rows Lives jobs (and_then r (λ b. run w (k b)) after).1.jobs
answered w held now jobs k (ok b) after ih d st =
    Rows-trans (λ x y z g l. Moved-Lives x y z g.move l) jobs after.jobs _ st.rows
      (ih b st.held' after (Distinct-Rows (λ x y g. g.move.same_job) jobs after.jobs st.rows d)
        st.owned st.safe)
answered w held now jobs k (throws s) after ih d st =
    Rows-map (λ x y g. Lives-Moved x x y (Lives-refl x) g.move) jobs after.jobs st.rows

run-Refined : (w : World) (p : Program ℕ) → Refined w p
unfolding run Safe step
run-Refined w (done a) held db d o s = Rows-refl Lives Lives-refl db.jobs
run-Refined w (fails e) held db d o s = Rows-refl Lives Lives-refl db.jobs
run-Refined w (measure k) held db d o s =
    run-Refined w (k (w.stopwatch db.statements)) held db d o (s (w.stopwatch db.statements))
run-Refined w (query q k) held db d o s =
    answered w held (w.clock db.statements) db.jobs k (statement w q db).0 (statement w q db).1
      (λ b. run-Refined w (k b)) d (step-Stepped 0 w held (query q k) db (omega arith) d o s)

-- Where job ids are distinct, a tick, whatever fails and wherever it ends, leaves a table in which
-- each row keeps its place and its id and has made a number of moves of `Move`: to be claimed when
-- queued, to start when claimed with one more attempt, to complete, to be buried at the last attempt
-- or queued again before it when running, and to be given back when in flight.
pub run_worker_tick-Lives :
    (w : World) (db : Db)
    → Distinct (λ j. j.id) db.jobs
    → Rows Lives db.jobs (run_worker_tick w db).1.jobs
run_worker_tick-Lives w db d =
    subst (λ (r : Result ℕ × Db). Rows Lives db.jobs r.1.jobs) (run-tick w db)
      (run-Refined w (tick w.js) [] db d (record { present = tt; live = tt; different = tt })
        (Safe-tick 0 w.js))

-- A tick leaves the jobs alone that are neither queued nor in flight: they keep their status and
-- their attempts.
pub run_worker_tick-final :
    (w : World) (db : Db)
    → Distinct (λ j. j.id) db.jobs
    → Rows
        (λ x y. final x.status ≡ true → phase_of y ≡ phase_of x)
        db.jobs
        (run_worker_tick w db).1.jobs
run_worker_tick-final w db d =
    Rows-map (λ x y l f. final-Moves f l.moves) db.jobs _ (run_worker_tick-Lives w db d)
