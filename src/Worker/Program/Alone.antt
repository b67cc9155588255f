-- ===== src/Worker/Program/Alone.antt =====
-- A tick that runs alone: its statements in sequence are `run_worker_tick`.
use mathlib.Core.Path.{fun_ext, ap₂}
use job_scheduler.Prelude.{
  ℕ, suc, ◌≡◌, refl, ap, ◌∙◌, String, ℤ, pos, leb_ℤ, Bool-cases, inl, inr, Option, none, some, List,
  [], ◌∷◌, ◌==◌,
}
use job_scheduler.Json.{Json}
use job_scheduler.Db.{Db, Job, Queue, Worker}
use job_scheduler.Db.Sql
use job_scheduler.Db.Sql.{World, Result, ok, throws, Query, Action, statement, and_then}
use job_scheduler.Worker.Registration.{register, ensure_worker}
use job_scheduler.Worker.Reaper.{reaper}
use job_scheduler.Worker.Execute.{
  parse_payload, settle_failure, settle, attempt_job, execute_job, stopwatch,
}
use job_scheduler.Worker.Tick.{
  execute_all, claim_and_execute, run_queue, run_queues, run_worker_tick,
}
use job_scheduler.Worker.Program.{
  Program, done, fails, query, measure, ◌>>=◌, ask, lift, registered, registration, burial,
  settlement, attempt_at, execution, executions, batch, queue_run, queue_runs, tick,
}

-- A program with nothing between its statements.
unfoldable pub run : {A : Type 0} → World → Program A → Action A
run w (done a) = Sql.pure a
run w (fails s) = Sql.throw s
run w (query q k) = Sql.◌>>=◌ (statement w q) (λ b. run w (k b))
run w (measure k) = λ db. run w (k (w.stopwatch db.statements)) db

-- One more program behind two.
and_then_assoc :
    {A B C : Type 0} (r : Result A) (f : A → Action B) (g : B → Action C) (h : A → Action C)
    (db : Db)
    → ((a : A) → h a ≡ Sql.◌>>=◌ (f a) g)
    → and_then r h db ≡ and_then (and_then r f db).0 g (and_then r f db).1
and_then_assoc (ok a) f g h db e = ap (λ (m : Action _). m db) (e a)
and_then_assoc (throws s) f g h db e = refl

pub run-bind :
    {A B : Type 0} (w : World) (p : Program A) (f : A → Program B)
    → run w (p >>= f) ≡ Sql.◌>>=◌ (run w p) (λ a. run w (f a))
unfolding run
run-bind w (done a) f = refl
run-bind w (fails s) f = refl
run-bind w (query q k) f = fun_ext λ db.
    and_then_assoc (statement w q db).0 (λ b. run w (k b)) (λ a. run w (f a))
      (λ b. run w (k b >>= f)) (statement w q db).1 (λ b. run-bind w (k b) f)
run-bind w (measure k) f =
    fun_ext λ db. ap (λ (m : Action _). m db) (run-bind w (k (w.stopwatch db.statements)) f)

and_then-pure : {A : Type 0} (r : Result A) (db : Db) → and_then r Sql.pure db ≡ (r, db)
and_then-pure (ok a) db = refl
and_then-pure (throws s) db = refl

run-ask : {A : Type 0} (w : World) (q : Query A) → run w (ask q) ≡ statement w q
unfolding run
run-ask w q = fun_ext λ db. and_then-pure (statement w q db).0 (statement w q db).1

run-done : {A : Type 0} (w : World) (a : A) → run w (done a) ≡ Sql.pure a
unfolding run
run-done w a = refl

run-measure : (w : World) → run w (measure done) ≡ stopwatch w
unfolding run
run-measure w = refl

-- One program behind another, each run as an action.
run-seq :
    {A B : Type 0} (w : World) (p : Program A) (f : A → Program B) (m : Action A) (g : A → Action B)
    → run w p ≡ m
    → ((a : A) → run w (f a) ≡ g a)
    → run w (p >>= f) ≡ Sql.◌>>=◌ m g
run-seq w p f m g e h = run-bind w p f ∙ ap₂ Sql.◌>>=◌ e (fun_ext h)

run-burial :
    (w : World) (job : Job) (payload : Json) (attempt : ℕ) (message : String)
    → run w (burial job payload attempt message) ≡ settle_failure w job payload attempt message
unfolding burial settle_failure
run-burial w job payload attempt message =
    elim (Bool-cases (leb_ℤ job.max_attempts (pos attempt))) [
      | inl e ↦ rw e (run-seq w (ask _) _ _ _ (run-ask w _) (λ _. run-ask w _))
      | inr e ↦ rw e (run-ask w _)
    ]

run-registered : (w : World) (row : Option Worker) → run w (registered row) ≡ register w row
unfolding run registered
run-registered w none = refl
run-registered w (some row) = refl

run-settlement :
    (w : World) (job : Job) (payload : Json) (attempt execution : ℕ) (duration : ℤ)
    (outcome : Option String)
    → run w (settlement job payload attempt execution duration outcome)
      ≡ settle w job payload attempt execution duration outcome
unfolding settlement settle
run-settlement w job payload attempt execution duration none =
    run-seq w (ask _) _ _ _ (run-ask w _)
      λ _. run-seq w (ask _) _ _ _ (run-ask w _) (λ _. run-ask w _)
run-settlement w job payload attempt execution duration (some message) =
    run-seq w (burial job payload attempt message) _ _ _ (run-burial w job payload attempt message)
      λ _. run-seq w (ask _) _ _ _ (run-ask w _) (λ _. run-ask w _)

run-attempt_at :
    (w : World) (job : Job) (worker_id : ℕ) (payload : Json)
    → run w (attempt_at w.js job worker_id payload) ≡ attempt_job w job worker_id payload
unfolding attempt_at attempt_job
run-attempt_at w job worker_id payload = run-seq w (ask _) _ _ _ (run-ask w _) λ _.
    run-seq w (ask _) _ _ _ (run-ask w _) λ execution. run-seq w (ask _) _ _ _ (run-ask w _) λ _.
      run-seq w (measure done) _ _ _ (run-measure w)
        λ duration. run-settlement w job payload _ execution duration _

run-lift : {A : Type 0} (w : World) (r : Result A) → run w (lift r) ≡ Sql.lift r
unfolding run
run-lift w (ok a) = refl
run-lift w (throws s) = refl

run-execution :
    (w : World) (job : Job) (worker_id : ℕ)
    → run w (execution w.js job worker_id) ≡ execute_job w job worker_id
unfolding execution execute_job
run-execution w job worker_id =
    run-seq w (lift (parse_payload w.js job.payload)) _ _ _ (run-lift w _)
      (run-attempt_at w job worker_id)

run-executions :
    (w : World) (worker_id processed : ℕ) (jobs : List Job)
    → run w (executions w.js worker_id processed jobs) ≡ execute_all w worker_id processed jobs
unfolding executions execute_all
run-executions w worker_id processed [] = run-done w processed
run-executions w worker_id processed (job ∷ jobs) =
    run-seq w (execution w.js job worker_id) _ _ _ (run-execution w job worker_id)
      (λ _. run-executions w worker_id (suc processed) jobs)

run-batch :
    (w : World) (worker_id processed : ℕ) (q : Queue) (budget : ℕ)
    → run w (batch w.js worker_id processed q budget)
      ≡ claim_and_execute w worker_id processed q budget
unfolding batch claim_and_execute
run-batch w worker_id processed q budget = elim (Bool-cases (budget == 0)) [
  | inl e ↦ rw e (run-done w processed)
  | inr e ↦ rw e (run-seq w (ask _) _ _ _ (run-ask w _) (run-executions w worker_id processed))
]

run-queue_run :
    (w : World) (worker_id processed : ℕ) (q : Queue)
    → run w (queue_run w.js worker_id processed q) ≡ run_queue w worker_id processed q
unfolding queue_run run_queue
run-queue_run w worker_id processed q =
    run-seq w (ask _) _ _ _ (run-ask w _) (run-batch w worker_id processed q)

run-queue_runs :
    (w : World) (worker_id processed : ℕ) (qs : List Queue)
    → run w (queue_runs w.js worker_id processed qs) ≡ run_queues w worker_id processed qs
unfolding queue_runs run_queues
run-queue_runs w worker_id processed [] = run-done w processed
run-queue_runs w worker_id processed (q ∷ qs) =
    run-seq w (queue_run w.js worker_id processed q) _ _ _ (run-queue_run w worker_id processed q)
      (λ processed'. run-queue_runs w worker_id processed' qs)

-- Sent one after the other, the statements of a tick are the tick: the same answer or exception, and
-- the same tables behind it, whatever fails.
pub run-tick : (w : World) (db : Db) → run w (tick w.js) db ≡ run_worker_tick w db
unfolding tick run_worker_tick registration ensure_worker reaper
run-tick w db =
    ap (λ (m : Action ℕ). m db)
      (run-seq w (ask _) _ _ _ (run-ask w _) λ _.
        run-seq w registration _ _ _ (run-seq w (ask _) _ _ _ (run-ask w _) (run-registered w))
          λ worker_id. run-seq w (ask _) _ _ _ (run-ask w _) (run-queue_runs w worker_id 0))
