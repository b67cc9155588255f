-- ===== src/Worker/Reaper/Recovery.antt =====
-- What the reaper gives back, and that it finds every job of a worker that died.
use job_scheduler.Prelude.{
  ℕ, ◌<◌, ◌≡◌, refl, ◌⊎◌, inl, inr, true, false, Option, none, some, List, [], ◌∷◌, arith, update,
  Bool-cases,
}
use job_scheduler.Db.{Db, Job, queued, is_in_flight}
use job_scheduler.Db.Sql.{World, served, ok, sent}
use job_scheduler.Db.Served.{statement_served}
use job_scheduler.Db.Ensures.{Ensures, Ensures-keeps}
use job_scheduler.Worker.Invariant.{IsSoundRow, IsSound, update-IsSoundHeld}
use job_scheduler.Worker.Reaper.{is_stale, reclaim, reaper}

abbrev pub LeaseBefore : ℕ → Option ℕ → Type 0
LeaseBefore now none = ⊥
LeaseBefore now (some t) = t < now

-- What becomes of a job.
pub data Reaped (now : ℕ) (j j' : Job) : Type 0 where
  given_back :
      is_in_flight j.status ≡ true
      → LeaseBefore now j.lease_expires_at
      → j' ≡ record j {
        status = queued;
        worker_id = none;
        claimed_at = none;
        lease_expires_at = none;
        updated_at = now;
      }
      → Reaped now j j'
  kept :
      (is_in_flight j.status ≡ false) ⊎ (¬ LeaseBefore now j.lease_expires_at)
      → j' ≡ j
      → Reaped now j j'

-- Row by row.
abbrev pub Each : {A : Type 0} → (A → A → Type 0) → List A → List A → Type 0
Each R [] [] = Unit
Each R [] (y ∷ ys) = ⊥
Each R (x ∷ xs) [] = ⊥
Each R (x ∷ xs) (y ∷ ys) = R x y × Each R xs ys

stale_facts :
    (now : ℕ) (j : Job)
    → is_stale now j ≡ true
    → (is_in_flight j.status ≡ true) × LeaseBefore now j.lease_expires_at
unfolding is_stale
stale_facts now j h = ground arith

fresh_facts :
    (now : ℕ) (j : Job)
    → is_stale now j ≡ false
    → (is_in_flight j.status ≡ false) ⊎ (¬ LeaseBefore now j.lease_expires_at)
unfolding is_stale
fresh_facts now j h = ground arith

reap-Each :
    (now : ℕ) (jobs : List Job) → Each (Reaped now) jobs (update (is_stale now) (reclaim now) jobs)
unfolding reclaim
reap-Each now [] = tt
reap-Each now (j ∷ js) = elim (Bool-cases (is_stale now j)) [
  | inl e ↦ let (f, l) = stale_facts now j e in rw e (given_back f l refl, reap-Each now js)
  | inr e ↦ rw e (kept (fresh_facts now j e) refl, reap-Each now js)
]

reaper_served :
    (w : World) (db : Db)
    → w.fault db.statements ≡ served
    → let now = w.clock db.statements in
      reaper w db ≡ (ok tt, record (sent db) { jobs = update (is_stale now) (reclaim now) db.jobs })
unfolding reaper
reaper_served w db h = statement_served w _ db h

-- When its statement is served, the reaper gives back exactly the jobs in flight whose lease lies
-- in the past, keeping their attempts, and leaves every other job and table alone.
pub reaper_exact :
    (w : World) (db : Db)
    → w.fault db.statements ≡ served
    → let after = (reaper w db).1 in
      ((reaper w db).0 ≡ ok tt)
      × Each (Reaped (w.clock db.statements)) db.jobs after.jobs
      × (after ≡ record (sent db) { jobs = after.jobs })
reaper_exact w db h =
    rw (reaper_served w db h) (refl, reap-Each (w.clock db.statements) db.jobs, refl)

reclaim-IsSoundRow : (now : ℕ) (j : Job) → IsSoundRow [] (reclaim now j)
unfolding reclaim
reclaim-IsSoundRow now j = record { worker = refl; lease = refl; in_flight = λ c. cc }

reclaim-id : (now : ℕ) (j : Job) → (reclaim now j).id ≡ j.id
unfolding reclaim
reclaim-id now j = refl

-- The reaper keeps the tables sound, also when its statement fails.
pub reaper-IsSound : (w : World) → Ensures IsSound IsSound (reaper w) (λ _. IsSound)
unfolding reaper
reaper-IsSound w =
    Ensures-keeps w _ (λ db s. s)
      λ m db s.
        update-IsSoundHeld [] [] (is_stale m.now) (reclaim m.now) db (reclaim-id m.now)
          (λ j _ _. reclaim-IsSoundRow m.now j) (λ j _ r. r) s
