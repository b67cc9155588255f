-- ===== src/Worker/Program/Stepped.antt =====
-- One statement of a tick, served, refused or lost, and what is left of the tick behind it.
use job_scheduler.Prelude.{ℕ, ◌≤◌, ◌≡◌, refl, List, [], Distinct, String}
use job_scheduler.Db.{Db, Job}
use job_scheduler.Db.Sql.{
  World, Fault, served, refused, lost, Result, ok, throws, statement, moment, sent,
}
use job_scheduler.Worker.Lifecycle.{Rows, Rows-refl}
use job_scheduler.Worker.Program.{Program, done, fails, query, measure, resume, step}
use job_scheduler.Worker.Program.Owned.{Guarantee, IsOwned, Keeps, Safe}
use job_scheduler.Worker.Program.Statements.{Guarantee-refl}

-- What is left of one tick behind one step of it.
pub record Stepped (since : ℕ) (held : List Job) (now : ℕ) (jobs : List Job) (p : Program ℕ)
    (after : Db) : Type 0 where
  pub held' : List Job
  pub rows : Rows (Guarantee held held' now) jobs after.jobs
  pub owned : IsOwned since held' after.jobs
  pub safe : Safe since (λ _ h. h ≡ []) held' p

Stepped-same :
    (since : ℕ) (held : List Job) (now : ℕ) (p : Program ℕ) (db : Db)
    → IsOwned since held db.jobs
    → Safe since (λ _ h. h ≡ []) held p
    → Stepped since held now db.jobs p db
Stepped-same since held now p db o s = record {
  held' = held;
  rows = Rows-refl (Guarantee held held now) (Guarantee-refl held now) db.jobs;
  owned = o;
  safe = s;
}

module _ (since : ℕ) (held : List Job) {B : Type 0} (k : B → Program ℕ) (now : ℕ)
    (jobs : List Job) where
  Stepped-answered :
      (r : Result B) (after : Db)
      → Keeps since held now jobs (r, after) (λ b h. Safe since (λ _ h'. h' ≡ []) h (k b))
      → Stepped since held now jobs (resume k r) after
  unfolding Safe
  Stepped-answered (ok b) after kept = record {
    held' = kept.held';
    rows = kept.rows;
    owned = kept.owned;
    safe = kept.answer b refl;
  }
  Stepped-answered (throws s) after kept = record {
    held' = kept.held';
    rows = kept.rows;
    owned = kept.owned;
    safe = tt;
  }

  -- A statement that is refused, or whose answer is lost, ends the tick.
  Stepped-failed :
      (s : String) (r : Result B) (after : Db)
      → Keeps since held now jobs (r, after) (λ b h. Safe since (λ _ h'. h' ≡ []) h (k b))
      → Stepped since held now jobs (fails s) after
  unfolding Safe
  Stepped-failed s r after kept = record {
    held' = kept.held';
    rows = kept.rows;
    owned = kept.owned;
    safe = tt;
  }

pub step-Stepped :
    (since : ℕ) (w : World) (held : List Job) (p : Program ℕ) (db : Db)
    → since ≤ w.clock db.statements
    → Distinct (λ j. j.id) db.jobs
    → IsOwned since held db.jobs
    → Safe since (λ _ h. h ≡ []) held p
    → Stepped since held (w.clock db.statements) db.jobs (step w p db).0 (step w p db).1
unfolding step statement Safe
step-Stepped since w held (done a) db late d o s =
    Stepped-same since held (w.clock db.statements) (done a) db o s
step-Stepped since w held (fails e) db late d o s =
    Stepped-same since held (w.clock db.statements) (fails e) db o s
step-Stepped since w held (measure k) db late d o s =
    Stepped-same since held (w.clock db.statements) (k (w.stopwatch db.statements)) db o
      (s (w.stopwatch db.statements))
step-Stepped since w held (query {B = B} q k) db late d o s =
    by_fault (w.fault db.statements) (s (moment w db) (sent db) late d o)
  where
    by_fault :
        (f : Fault)
        → Keeps since held
            (w.clock db.statements)
            db.jobs
            (q (moment w db) (sent db))
            (λ b h. Safe since (λ _ h'. h' ≡ []) h (k b))
        → let r : Result B × Db = elim f [
          | served ↦ q (moment w db) (sent db)
          | refused message ↦ (throws message, sent db)
          | lost message ↦ (throws message, (q (moment w db) (sent db)).1)
        ] in
          Stepped since held (w.clock db.statements) db.jobs (resume k r.0) r.1
    by_fault served kept =
        Stepped-answered since held k (w.clock db.statements) db.jobs (q (moment w db) (sent db)).0
          (q (moment w db) (sent db)).1 kept
    by_fault (refused e) kept =
        Stepped-same since held (w.clock db.statements) (fails e) (sent db) o tt
    by_fault (lost e) kept =
        Stepped-failed since held k (w.clock db.statements) db.jobs e (q (moment w db) (sent db)).0
          (q (moment w db) (sent db)).1 kept
