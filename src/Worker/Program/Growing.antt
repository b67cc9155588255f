-- ===== src/Worker/Program/Growing.antt =====
-- The count of statements under a tick of dashboard/src/server/worker.ts: no statement sets it back.
use job_scheduler.Prelude.{
  ℕ, ◌+◌, suc, ◌≤◌, ◌==◌, subst, ap, if◌then◌else◌, ◌≡◌, refl, arith, ℤ, pos, leb_ℤ, String, Bool,
  true, false, Option, none, some, List, [], ◌∷◌,
}
use job_scheduler.Json.{Json, Js}
use job_scheduler.Db.{Db, Job, Queue, Worker}
use job_scheduler.Db.Sql.{
  World, Moment, moment, sent, Fault, served, refused, lost, Query, Result, ok, throws, statement,
  and_then,
}
use job_scheduler.Worker.Program.{
  Program, done, fails, query, measure, ◌>>=◌, lift, registered, registration, burial, settlement,
  attempt_at, execution, executions, batch, queue_run, queue_runs, tick,
}
use job_scheduler.Worker.Program.Alone.{run, run-tick}
use job_scheduler.Worker.Execute.{
  run_payload, parse_payload, update_job, insert_execution, insert_log, finish_execution,
  insert_dead_letter,
}
use job_scheduler.Worker.Registration.{
  insert_worker, upsert_heartbeat, activate_worker, insert_heartbeat-same,
}
use job_scheduler.Worker.Claim.{select_budget, select_budget-same, claim}
use job_scheduler.Worker.Tick.{run_worker_tick}

-- A query that leaves the count of statements alone; a program of such queries.
abbrev IsCounted : {B : Type 0} → Query B → Type 0
IsCounted q = (m : Moment) (db : Db) → (q m db).1.statements ≡ db.statements

abbrev AllCounted : {A : Type 0} → Program A → Type 0
AllCounted (done a) = Unit
AllCounted (fails s) = Unit
AllCounted (query q k) = IsCounted q × ((b : _) → AllCounted (k b))
AllCounted (measure k) = (n : ℤ) → AllCounted (k n)

AllCounted-bind :
    {A B : Type 0} (p : Program A) (f : A → Program B)
    → AllCounted p
    → ((a : A) → AllCounted (f a))
    → AllCounted (p >>= f)
AllCounted-bind (done a) f h k = k a
AllCounted-bind (fails s) f h k = tt
AllCounted-bind (query q g) f h k = (h.0, λ b. AllCounted-bind (g b) f (h.1 b) k)
AllCounted-bind (measure g) f h k = λ n. AllCounted-bind (g n) f (h n) k

AllCounted-if :
    {A : Type 0} (b : Bool) (p q : Program A)
    → AllCounted p
    → AllCounted q
    → AllCounted (if b then p else q)
AllCounted-if true p q h k = h
AllCounted-if false p q h k = k

AllCounted-lift : {A : Type 0} (r : Result A) → AllCounted (lift r)
AllCounted-lift (ok a) = tt
AllCounted-lift (throws s) = tt

statement-grows :
    {B : Type 0} (w : World) (q : Query B) (db : Db)
    → IsCounted q
    → db.statements ≤ (statement w q db).1.statements
unfolding statement
statement-grows {B = B} w q db h = case (w.fault db.statements)
  where
    served_grows : db.statements ≤ (q (moment w db) (sent db)).1.statements
    served_grows = let e = h (moment w db) (sent db) in omega (arith, e)

    case :
        (f : Fault)
        → let r : Result B × Db = elim f [
          | served ↦ q (moment w db) (sent db)
          | refused message ↦ (throws message, sent db)
          | lost message ↦ (throws message, (q (moment w db) (sent db)).1)
        ] in
          db.statements ≤ r.1.statements
    case served = served_grows
    case (refused s) = omega arith
    case (lost s) = served_grows

resumed-grows :
    {A B : Type 0} (w : World) (n : ℕ) (k : B → Program A) (r : Result B) (after : Db)
    → ((b : B) → after.statements ≤ (run w (k b) after).1.statements)
    → n ≤ after.statements
    → n ≤ (and_then r (λ b. run w (k b)) after).1.statements
resumed-grows w n k (ok b) after rest g = let h = rest b in omega (arith, g, h)
resumed-grows w n k (throws s) after rest g = g

run-grows :
    {A : Type 0} (w : World) (p : Program A) (db : Db)
    → AllCounted p
    → db.statements ≤ (run w p db).1.statements
unfolding run
run-grows w (done a) db h = omega arith
run-grows w (fails s) db h = omega arith
run-grows w (measure k) db h =
    run-grows w (k (w.stopwatch db.statements)) db (h (w.stopwatch db.statements))
run-grows w (query q k) db h =
    resumed-grows w db.statements k (statement w q db).0 (statement w q db).1
      (λ b. run-grows w (k b) (statement w q db).1 (h.1 b)) (statement-grows w q db h.0)

registered-AllCounted : (row : Option Worker) → AllCounted (registered row)
unfolding registered insert_worker upsert_heartbeat activate_worker
registered-AllCounted none = (
  (λ m db. refl),
  λ id. ((λ m db. ap (λ (d : Db). d.statements) (insert_heartbeat-same id m db).1), λ u. tt),
)
registered-AllCounted (some row) = ((λ m db. refl), λ u. ((λ m db. refl), λ u'. tt))

burial-AllCounted :
    (job : Job) (payload : Json) (attempt : ℕ) (message : String)
    → AllCounted (burial job payload attempt message)
unfolding burial update_job insert_dead_letter
burial-AllCounted job payload attempt message =
    AllCounted-if (leb_ℤ job.max_attempts (pos attempt)) _ _
      ((λ m db. refl), λ u. ((λ m db. refl), λ u'. tt)) ((λ m db. refl), λ u. tt)

settlement-AllCounted :
    (job : Job) (payload : Json) (attempt run_id : ℕ) (duration : ℤ) (outcome : Option String)
    → AllCounted (settlement job payload attempt run_id duration outcome)
unfolding settlement update_job finish_execution insert_log
settlement-AllCounted job payload attempt run_id duration none =
    ((λ m db. refl), λ u. ((λ m db. refl), λ u'. ((λ m db. refl), λ u''. tt)))
settlement-AllCounted job payload attempt run_id duration (some message) =
    AllCounted-bind (burial job payload attempt message) _
      (burial-AllCounted job payload attempt message)
      (λ u. ((λ m db. refl), λ u'. ((λ m db. refl), λ u''. tt)))

attempt_at-AllCounted :
    (js : Js) (job : Job) (worker_id : ℕ) (payload : Json)
    → AllCounted (attempt_at js job worker_id payload)
unfolding attempt_at update_job insert_execution insert_log
attempt_at-AllCounted js job worker_id payload = (
  (λ m db. refl),
  λ u. (
    (λ m db. refl),
    λ run_id. (
      (λ m db. refl),
      λ u' duration.
          settlement-AllCounted job payload (job.attempts + 1) run_id duration
            (run_payload js payload),
    ),
  ),
)

execution-AllCounted :
    (js : Js) (job : Job) (worker_id : ℕ) → AllCounted (execution js job worker_id)
unfolding execution
execution-AllCounted js job worker_id =
    AllCounted-bind (lift (parse_payload js job.payload)) _
      (AllCounted-lift (parse_payload js job.payload)) (attempt_at-AllCounted js job worker_id)

executions-AllCounted :
    (js : Js) (worker_id processed : ℕ) (jobs : List Job)
    → AllCounted (executions js worker_id processed jobs)
unfolding executions
executions-AllCounted js worker_id processed [] = tt
executions-AllCounted js worker_id processed (job ∷ jobs) =
    AllCounted-bind (execution js job worker_id) _ (execution-AllCounted js job worker_id)
      (λ u. executions-AllCounted js worker_id (suc processed) jobs)

queue_run-AllCounted :
    (js : Js) (worker_id processed : ℕ) (q : Queue)
    → AllCounted (queue_run js worker_id processed q)
unfolding queue_run batch claim
queue_run-AllCounted js worker_id processed q = (
  (λ m db. budgeted m db),
  λ budget.
      AllCounted-if (budget == 0) _ _ tt
        ((λ m db. refl), executions-AllCounted js worker_id processed),
)
  where
    budgeted : IsCounted (select_budget q.id)
    budgeted m db = ap (λ (d : Db). d.statements) (select_budget-same q.id m db)

queue_runs-AllCounted :
    (js : Js) (worker_id processed : ℕ) (qs : List Queue)
    → AllCounted (queue_runs js worker_id processed qs)
unfolding queue_runs
queue_runs-AllCounted js worker_id processed [] = tt
queue_runs-AllCounted js worker_id processed (q ∷ qs) =
    AllCounted-bind (queue_run js worker_id processed q) _
      (queue_run-AllCounted js worker_id processed q)
      (λ processed'. queue_runs-AllCounted js worker_id processed' qs)

tick-AllCounted : (js : Js) → AllCounted (tick js)
unfolding tick registration
tick-AllCounted js = (
  (λ m db. refl),
  λ u.
      AllCounted-bind (registration) _ ((λ m db. refl), registered-AllCounted)
        (λ worker_id. ((λ m db. refl), queue_runs-AllCounted js worker_id 0)),
)

-- No tick sets the count of statements back.
pub run_worker_tick-grows :
    (w : World) (db : Db) → db.statements ≤ (run_worker_tick w db).1.statements
run_worker_tick-grows w db =
    subst (λ (r : Result ℕ × Db). db.statements ≤ r.1.statements) (run-tick w db)
      (run-grows w (tick w.js) db (tick-AllCounted w.js))
