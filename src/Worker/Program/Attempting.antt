-- ===== src/Worker/Program/Attempting.antt =====
-- An attempt keeps the guarantee that a tick gives to the others.
use job_scheduler.Prelude.{
  ℕ, ◌+◌, ◌≡◌, refl, inl, inr, true, false, some, none, List, ◌∷◌, ℤ, pos, leb_ℤ, String, Option,
  Bool-cases,
}
use job_scheduler.Json.{Json, Js}
use job_scheduler.Db.{Db, Job, claimed}
use job_scheduler.Db.Sql.{Moment, Result, ok, throws, Query}
use job_scheduler.Worker.Execute.{
  update_job, start_job, complete_job, bury_job, requeue_job, insert_execution, finish_execution,
  insert_log, insert_dead_letter, run_payload, parse_payload,
}
use job_scheduler.Worker.Lifecycle.{Move}
use job_scheduler.Worker.Program.{
  Program, query, measure, done, lift, ◌>>=◌, burial, settlement, attempt_at, execution, ask, ◌>>◌,
  ◌>>◌,
}
use job_scheduler.Worker.Program.Owned.{Safe}
use job_scheduler.Worker.Program.Statements.{Keeps-idle, Keeps-settle, Keeps-update}

module _ (since : ℕ) where
  pub Safe-idle :
      {A B : Type 0} (Q : A → List Job → Type 0) (held : List Job) (q : Query B) (k : B → Program A)
      → ((m : Moment) (db : Db) → (q m db).1.jobs ≡ db.jobs)
      → ((b : B) → Safe since Q held (k b))
      → Safe since Q held (query q k)
  unfolding Safe
  Safe-idle Q held q k idle next m db late d o =
      Keeps-idle since held m.now db (q m db) (λ b h. Safe since Q h (k b)) (idle m db) o
        (λ b _. next b)

  pub Safe-done :
      {A : Type 0} (Q : A → List Job → Type 0) (held : List Job) (a : A)
      → Q a held
      → Safe since Q held (done a)
  unfolding Safe
  Safe-done Q held a q = q

  Safe-measure :
      {A : Type 0} (Q : A → List Job → Type 0) (held : List Job) (k : ℤ → Program A)
      → ((n : ℤ) → Safe since Q held (k n))
      → Safe since Q held (measure k)
  unfolding Safe
  Safe-measure Q held k next = next

  Safe-lift :
      {A B : Type 0} (Q : A → List Job → Type 0) (held : List Job) (r : Result B)
      (f : B → Program A)
      → ((b : B) → Safe since Q held (f b))
      → Safe since Q held (lift r >>= f)
  unfolding Safe
  Safe-lift Q held (ok b) f next = next b
  Safe-lift Q held (throws s) f next = tt

  -- The three ways in which an attempt is settled, at the row as the attempt left it.
  module _ {A : Type 0} (Q : A → List Job → Type 0) (job : Job) (rest : List Job) (now : ℕ)
      (k : Unit {0} → Program A) (next : Safe since Q rest (k tt)) where
    Safe-complete :
        Safe since Q
          (start_job (job.attempts + 1) now job ∷ rest)
          (query (update_job job.id complete_job) k)
    unfolding Safe
    Safe-complete m db late d o =
        Keeps-settle since (start_job (job.attempts + 1) now job) rest complete_job m db refl
          (Move.complete refl) d o (λ b h. Safe since Q h (k b)) next

    Safe-bury :
        (message : String)
        → leb_ℤ job.max_attempts (pos (job.attempts + 1)) ≡ true
        → Safe since Q
            (start_job (job.attempts + 1) now job ∷ rest)
            (query (update_job job.id (bury_job message)) k)
    unfolding Safe
    Safe-bury message last m db late d o =
        Keeps-settle since (start_job (job.attempts + 1) now job) rest (bury_job message) m db refl
          (Move.bury refl last) d o (λ b h. Safe since Q h (k b)) next

    Safe-requeue :
        (message : String)
        → leb_ℤ job.max_attempts (pos (job.attempts + 1)) ≡ false
        → Safe since Q
            (start_job (job.attempts + 1) now job ∷ rest)
            (query (update_job job.id (requeue_job message)) k)
    unfolding Safe
    Safe-requeue message early m db late d o =
        Keeps-settle since (start_job (job.attempts + 1) now job) rest (requeue_job message) m db
          refl (Move.requeue refl early) d o (λ b h. Safe since Q h (k b)) next

  -- What stands behind the settling of a job does not touch the table of jobs.
  pub Safe-idle_two :
      {A B C : Type 0} (Q : C → List Job → Type 0) (held : List Job) (q : Query A) (r : Query B)
      (c : B → Program C)
      → ((m : Moment) (db : Db) → (q m db).1.jobs ≡ db.jobs)
      → ((m : Moment) (db : Db) → (r m db).1.jobs ≡ db.jobs)
      → ((b : B) → Safe since Q held (c b))
      → Safe since Q held (query q (λ _. query r c))
  Safe-idle_two Q held q r c hq hr next =
      Safe-idle Q held q _ hq (λ _. Safe-idle Q held r c hr next)

  -- The last two statements of an attempt.
  closing : Job → ℕ → String → ℤ → Option String → String → String → Program (Unit {0})
  closing job run_id status duration error level message = do
    ask (finish_execution run_id status duration error)
    ask (insert_log job.id level message)

  Safe-closing :
      (Q : Unit {0} → List Job → Type 0) (rest : List Job) (job : Job) (run_id : ℕ)
      (status : String) (duration : ℤ) (error : Option String) (level message : String)
      → Q tt rest
      → Safe since Q rest (closing job run_id status duration error level message)
  unfolding closing finish_execution insert_log
  Safe-closing Q rest job run_id status duration error level message q =
      Safe-idle_two Q rest (finish_execution run_id status duration error)
        (insert_log job.id level message) done (λ m db. refl) (λ m db. refl)
        (λ _. Safe-done Q rest tt q)

  Safe-settlement :
      (Q : Unit {0} → List Job → Type 0) (job : Job) (rest : List Job) (now : ℕ) (payload : Json)
      (run_id : ℕ) (duration : ℤ) (outcome : Option String)
      → Q tt rest
      → Safe since Q
          (start_job (job.attempts + 1) now job ∷ rest)
          (settlement job payload (job.attempts + 1) run_id duration outcome)
  unfolding settlement burial closing insert_dead_letter
  Safe-settlement Q job rest now payload run_id duration none q =
      Safe-complete Q job rest now
        (λ _. closing job run_id "completed" duration none "info" "Job completed")
        (Safe-closing Q rest job run_id "completed" duration none "info" "Job completed" q)
  Safe-settlement Q job rest now payload run_id duration (some message) q =
      let after = closing job run_id "failed" duration (some message) "error" message in
      let closed =
        Safe-closing Q rest job run_id "failed" duration (some message) "error" message q in
      elim (Bool-cases (leb_ℤ job.max_attempts (pos (job.attempts + 1)))) [
        | inl last ↦
            let letter = insert_dead_letter job payload message (job.attempts + 1) in
            rw last (
              Safe-bury Q job rest now (λ _. query letter (λ _. after))
                (Safe-idle Q rest letter (λ _. after) (λ m db. refl) (λ _. closed)) message last)
        | inr early ↦ rw early (Safe-requeue Q job rest now (λ _. after) closed message early)
      ]

  -- What follows the first statement of an attempt.
  attempted : Js → Job → ℕ → Json → Program (Unit {0})
  attempted js job worker_id payload = do
    run_id ← ask (insert_execution job.id worker_id (job.attempts + 1))
    ask (insert_log job.id "info" "Job started")
    duration ← measure done
    settlement job payload (job.attempts + 1) run_id duration (run_payload js payload)

  Safe-attempted :
      (Q : Unit {0} → List Job → Type 0) (js : Js) (job : Job) (rest : List Job) (now worker_id : ℕ)
      (payload : Json)
      → Q tt rest
      → Safe since Q
          (start_job (job.attempts + 1) now job ∷ rest)
          (attempted js job worker_id payload)
  unfolding attempted insert_execution insert_log
  Safe-attempted Q js job rest now worker_id payload q =
      let outcome = run_payload js payload in
      let settled = settlement job payload (job.attempts + 1) in
      let held = start_job (job.attempts + 1) now job ∷ rest in
      Safe-idle Q held (insert_execution job.id worker_id (job.attempts + 1))
        (λ run_id.
          query (insert_log job.id "info" "Job started")
            (λ _. measure (λ duration. settled run_id duration outcome)))
        (λ m db. refl)
        λ run_id.
          Safe-idle Q held (insert_log job.id "info" "Job started")
            (λ _. measure (λ duration. settled run_id duration outcome)) (λ m db. refl)
            λ _.
              Safe-measure Q held (λ duration. settled run_id duration outcome)
                λ duration. Safe-settlement Q job rest now payload run_id duration outcome q

  Safe-attempt_at :
      (Q : Unit {0} → List Job → Type 0) (js : Js) (job : Job) (rest : List Job) (worker_id : ℕ)
      (payload : Json)
      → job.status ≡ claimed
      → Q tt rest
      → Safe since Q (job ∷ rest) (attempt_at js job worker_id payload)
  unfolding Safe attempt_at attempted
  Safe-attempt_at Q js job rest worker_id payload fresh q m db late d o =
      Keeps-update since job rest (start_job (job.attempts + 1)) m db refl (Move.start fresh) d o
        (λ b h. Safe since Q h (attempted js job worker_id payload))
        (record {
          in_flight = refl;
          until = o.live.0.until;
          lease = o.live.0.lease;
          long = o.live.0.long;
        })
        (Safe-attempted Q js job rest m.now worker_id payload q)

  pub Safe-execution :
      (Q : Unit {0} → List Job → Type 0) (js : Js) (job : Job) (rest : List Job) (worker_id : ℕ)
      → job.status ≡ claimed
      → Q tt rest
      → Safe since Q (job ∷ rest) (execution js job worker_id)
  unfolding execution
  Safe-execution Q js job rest worker_id fresh q =
      Safe-lift Q (job ∷ rest) (parse_payload js job.payload) (attempt_at js job worker_id)
        (λ payload. Safe-attempt_at Q js job rest worker_id payload fresh q)
