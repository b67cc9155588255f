-- ===== src/Worker/Invariant.antt =====
-- What holds of the tables between any two statements of the worker.
use job_scheduler.Prelude.{
  All-map, All-update_both, Distinct-update, ℕ, ◌≡◌, Bool, true, false, Option, none, some, List,
  [], ◌∷◌, arith, All, Distinct, contains, update,
}
use job_scheduler.Db.{Db, Job, Heartbeat, DeadLetter, is_in_flight}

abbrev pub is_set {ℓ} : {A : Type ℓ} → Option A → Bool
is_set none = false
is_set (some _) = true

-- A job has a worker and a lease exactly while it is claimed or running. The jobs with these ids,
-- which a tick has claimed and not yet executed, are in flight.
pub record IsSoundRow (held : List ℕ) (j : Job) : Type 0 where
  pub worker : is_set j.worker_id ≡ is_in_flight j.status
  pub lease : is_set j.lease_expires_at ≡ is_in_flight j.status
  pub in_flight : contains held j.id ≡ true → is_in_flight j.status ≡ true

-- The keys of the tables are keys, and every job is sound.
pub record IsSoundTables (held : List ℕ) (jobs : List Job) (heartbeats : List Heartbeat)
    (dead_letters : List DeadLetter) : Type 0 where
  pub job_ids : Distinct (λ j. j.id) jobs
  pub rows : All (IsSoundRow held) jobs
  pub one_heartbeat : Distinct (λ h. h.worker_id) heartbeats
  pub one_dead_letter : Distinct (λ d. d.job_id) dead_letters

abbrev pub IsSoundHeld : List ℕ → Db → Type 0
IsSoundHeld held db = IsSoundTables held db.jobs db.heartbeats db.dead_letters

abbrev pub IsSound : Db → Type 0
IsSound = IsSoundHeld []

-- Fewer jobs are held.
module _ (held held' : List ℕ)
    (fewer : (id : ℕ) → contains held' id ≡ true → contains held id ≡ true) where
  weaken_row : {j : Job} → IsSoundRow held j → IsSoundRow held' j
  weaken_row {j} r = record {
    worker = r.worker;
    lease = r.lease;
    in_flight = λ c. r.in_flight (fewer j.id c);
  }

  pub IsSoundHeld-fewer : (db : Db) → IsSoundHeld held db → IsSoundHeld held' db
  IsSoundHeld-fewer db s = record {
    job_ids = s.job_ids;
    rows = All-map (λ j r. weaken_row r) db.jobs s.rows;
    one_heartbeat = s.one_heartbeat;
    one_dead_letter = s.one_dead_letter;
  }

pub IsSoundHeld-IsSound : (held : List ℕ) (db : Db) → IsSoundHeld held db → IsSound db
IsSoundHeld-IsSound held = IsSoundHeld-fewer held [] (λ id c. cc)

pub IsSoundHeld-tail :
    (id : ℕ) (held : List ℕ) (db : Db) → IsSoundHeld (id ∷ held) db → IsSoundHeld held db
IsSoundHeld-tail id held = IsSoundHeld-fewer (id ∷ held) held (λ k c. ground arith)

-- An update of jobs that keeps their ids and makes sound rows of sound rows.
pub update-IsSoundHeld :
    (held held' : List ℕ) (p : Job → Bool) (f : Job → Job) (db : Db)
    → ((j : Job) → (f j).id ≡ j.id)
    → ((j : Job) → p j ≡ true → IsSoundRow held j → IsSoundRow held' (f j))
    → ((j : Job) → p j ≡ false → IsSoundRow held j → IsSoundRow held' j)
    → IsSoundHeld held db
    → IsSoundTables held' (update p f db.jobs) db.heartbeats db.dead_letters
update-IsSoundHeld held held' p f db same hit miss s = record {
  job_ids = Distinct-update (λ j. j.id) p f db.jobs same s.job_ids;
  rows = All-update_both (IsSoundRow held) (IsSoundRow held') p f db.jobs hit miss s.rows;
  one_heartbeat = s.one_heartbeat;
  one_dead_letter = s.one_dead_letter;
}
