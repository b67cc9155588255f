-- ===== src/Worker/Program/Interleaved.antt =====
-- Several ticks of dashboard/src/server/worker.ts at once, as the instances of the server run them:
-- a schedule says which tick sends the next statement. A lease lasts 30 seconds, and within that time
-- the ticks leave each other's jobs alone.
use mathlib.Core.Bool.{false≢true}
use job_scheduler.Prelude.{
  ℕ, ◌+◌, ◌*◌, ◌≤◌, ◌≡◌, ◌≢◌, refl, sym, ◌∙◌, inl, inr, false, List, [], ◌∷◌, Bool-cases, ◌==◌,
  eq_of_==, if◌then◌else◌, Distinct, contains, arith,
}
use job_scheduler.Db.{Db, Job}
use job_scheduler.Db.Sql.{World}
use job_scheduler.Worker.Claim.{lease_seconds}
use job_scheduler.Worker.Claim.Chosen.{ids}
use job_scheduler.Worker.Lifecycle.{Rows, Rows-map, Distinct-Rows, Moved}
use job_scheduler.Worker.Program.{Program, step, tick}
use job_scheduler.Worker.Program.Owned.{IsOwned, Safe, Apart, others_kept, others-Apart}
use job_scheduler.Worker.Program.Stepped.{Stepped, step-Stepped}
use job_scheduler.Worker.Program.Kept.{Safe-tick}

abbrev put {ℓ} : {A : Type ℓ} → (ℕ → A) → ℕ → A → ℕ → A
put f i a j = if j == i then a else f j

-- Any number of ticks over one database: each entry of the schedule lets one send its next statement.
unfoldable pub interleave : World → List ℕ → (ℕ → Program ℕ) → Db → (ℕ → Program ℕ) × Db
unfolding step
interleave w [] runs db = (runs, db)
interleave w (i ∷ schedule) runs db =
    let (p, after) = step w (runs i) db in interleave w schedule (put runs i p) after

-- What holds between any two statements: each tick owns what it holds, and no two hold one job.
record IsShared (since : ℕ) (helds : ℕ → List Job) (runs : ℕ → Program ℕ) (db : Db) : Type 0 where
  safe : (i : ℕ) → Safe since (λ _ h. h ≡ []) (helds i) (runs i)
  owned : (i : ℕ) → IsOwned since (helds i) db.jobs
  apart : (i j : ℕ) → i ≢ j → Apart (helds i) (helds j)
  distinct : Distinct (λ j. j.id) db.jobs

-- The 30 seconds of a lease, from `since`.
abbrev pub Within : ℕ → World → Type 0
Within since w = (n : ℕ) → (since ≤ w.clock n) × (w.clock n ≤ since + lease_seconds * 1000)

module _ (since : ℕ) (w : World) (within : Within since w) (helds : ℕ → List Job)
    (runs : ℕ → Program ℕ) (db : Db) (shared : IsShared since helds runs db) (i : ℕ) where
  next :
      Stepped since
        (helds i)
        (w.clock db.statements)
        db.jobs
        (step w (runs i) db).0
        (step w (runs i) db).1
  next =
      step-Stepped since w (helds i) (runs i) db (within db.statements).0 shared.distinct
        (shared.owned i) (shared.safe i)

  other-IsOwned : (j : ℕ) → i ≢ j → IsOwned since (helds j) (step w (runs i) db).1.jobs
  other-IsOwned j n =
      others_kept since (helds i) next.held' (helds j) (w.clock db.statements) db.jobs _
        (within db.statements).1 next.rows (shared.apart i j n) (shared.owned j)

  other-Apart : (j : ℕ) → i ≢ j → Apart next.held' (helds j)
  other-Apart j n =
      others-Apart since (helds i) next.held' (helds j) (w.clock db.statements) db.jobs _
        (within db.statements).1 next.rows (shared.apart i j n) (shared.owned j)

  other-Apart_back : (j : ℕ) → i ≢ j → Apart (helds j) next.held'
  other-Apart_back j n k c = elim (Bool-cases (contains (ids (helds j)) k)) [
    | inl e ↦ absurd (false≢true (sym (other-Apart j n k e) ∙ c))
    | inr e ↦ e
  ]

  next_helds : ℕ → List Job
  next_helds = put helds i next.held'

  ne_of_not : (j : ℕ) → (j == i) ≡ false → i ≢ j
  ne_of_not j e q = ground arith

  next-Apart : (a b : ℕ) → a ≢ b → Apart (next_helds a) (next_helds b)
  unfolding next_helds
  next-Apart a b n = elim (Bool-cases (a == i)) [
    | inl e ↦ elim (Bool-cases (b == i)) [
      | inl f ↦ absurd (n (eq_of_== a i e ∙ sym (eq_of_== b i f)))
      | inr f ↦ rw (e, f) (other-Apart b (ne_of_not b f))
    ]
    | inr e ↦ elim (Bool-cases (b == i)) [
      | inl f ↦ rw (e, f) (other-Apart_back a (ne_of_not a e))
      | inr f ↦ rw (e, f) (shared.apart a b n)
    ]
  ]

  next-IsShared :
      IsShared since next_helds (put runs i (step w (runs i) db).0) (step w (runs i) db).1
  unfolding next_helds
  next-IsShared = record {
    safe =
        λ j. elim (Bool-cases (j == i)) [ inl e ↦ rw e next.safe | inr e ↦ rw e (shared.safe j) ];
    owned = λ j. elim (Bool-cases (j == i)) [
      | inl e ↦ rw e next.owned
      | inr e ↦ rw e (other-IsOwned j (ne_of_not j e))
    ];
    apart = next-Apart;
    distinct = Distinct-Rows (λ x y g. g.move.same_job) db.jobs _ next.rows shared.distinct;
  }

module _ (since : ℕ) (w : World) (within : Within since w) where
  IsShared-interleave :
      (schedule : List ℕ) (helds : ℕ → List Job) (runs : ℕ → Program ℕ) (db : Db)
      → IsShared since helds runs db
      → let r = interleave w schedule runs db in
        (helds' : ℕ → List Job) × IsShared since helds' r.0 r.1
  unfolding interleave
  IsShared-interleave [] helds runs db shared = (helds, shared)
  IsShared-interleave (i ∷ schedule) helds runs db shared =
      IsShared-interleave schedule (next_helds since w within helds runs db shared i) _ _
        (next-IsShared since w within helds runs db shared i)

  -- When any number of ticks send their statements in any order, whatever fails, over tables with
  -- distinct job ids and within 30 seconds, each statement leaves each job in its phase or moves it by
  -- one `Move`: an attempt starts only at a claimed job, and only a running one is settled.
  pub interleave-Moved :
      (schedule : List ℕ) (i : ℕ) (db : Db)
      → Distinct (λ j. j.id) db.jobs
      → let (runs, before) = interleave w schedule (λ _. tick w.js) db in
        Rows Moved before.jobs (step w (runs i) before).1.jobs
  interleave-Moved schedule i db d =
      let start : IsShared since (λ _. []) (λ _. tick w.js) db = record {
        safe = λ j. Safe-tick since w.js;
        owned = λ j. record { present = tt; live = tt; different = tt };
        apart = λ a b n k c. refl;
        distinct = d;
      } in
      let (helds, shared) = IsShared-interleave schedule (λ _. []) (λ _. tick w.js) db start in
      let (runs, before) = interleave w schedule (λ _. tick w.js) db in
      Rows-map (λ x y g. g.move) before.jobs _ (next since w within helds runs before shared i).rows
