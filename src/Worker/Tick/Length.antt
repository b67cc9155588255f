-- ===== src/Worker/Tick/Length.antt =====
-- How many statements a tick of dashboard/src/server/worker.ts sends: a count that each statement
-- raises by one, and the share of a queue.
pub mod Attempts
pub mod Queues
pub mod Turns
use job_scheduler.Prelude.{
  mem_of_select_one, eq_of_==, ℕ, suc, ◌+◌, ◌*◌, ◌≤◌, ◌<◌, ◌≡◌, refl, sym, ap, subst, ◌∙◌, inl, inr,
  Bool, true, false, not, String, Option, none, some, List, [], ◌∷◌, length, ℤ, pos, leb_ℤ,
  pos_part, arith, Distinct, Distinct-update, Distinct-eq, Memᴰ, select, select_one, ◌==◌, All,
  Bool-cases, Option-cases, count, mem-select, All_of_mem, All-mem, update,
}
use job_scheduler.Json.{Json}
use job_scheduler.Db.{Db, Job, Queue, Worker}
use job_scheduler.Db.Sql.{
  World, Moment, Result, ok, throws, Query, Action, statement, sent, lift, pure, ◌>>=◌, ◌>>◌,
}
use job_scheduler.Db.Ensures.{
  Ensures, Ensures-counted, Ensures-bind, Ensures-pure, Ensures-if, Ensures-lift, Post,
  Ensures-after,
}
use job_scheduler.Worker.Registration.{
  ensure_worker, register, select_worker, upsert_heartbeat, activate_worker, insert_worker,
  insert_heartbeat, insert_heartbeat-same,
}
use job_scheduler.Worker.Reaper.{reaper, is_stale, reclaim}
use job_scheduler.Worker.Claim.{
  select_budget, claim, lease_job, budget_of, limit_or, select_budget-same,
}
use job_scheduler.Worker.Claim.Soundness.{lease_id}
use job_scheduler.Worker.Claim.Chosen.{is_chosen, length-returned-le}
use job_scheduler.Worker.Execute.{
  update_job, start_job, complete_job, bury_job, requeue_job, insert_execution, finish_execution,
  insert_log, insert_dead_letter, run_payload, parse_payload, settle_failure, settle, attempt_job,
  execute_job, stopwatch,
}
use job_scheduler.Worker.Tick.{
  select_unpaused, execute_all, claim_and_execute, run_queue, run_queues, run_worker_tick,
}

-- No more than `n` statements have been sent; the queues are those that the tick found.
pub record Sent (queues : List Queue) (n : ℕ) (db : Db) : Type 0 where
  pub same_queues : db.queues ≡ queues
  pub different : Distinct (λ j. j.id) db.jobs
  pub count : db.statements ≤ n

-- A query that counts nothing, changes no queue and keeps the ids of jobs apart.
pub record IsTame {A : Type 0} (q : Query A) : Type 0 where
  pub queues : (m : Moment) (db : Db) → (q m db).1.queues ≡ db.queues
  pub statements : (m : Moment) (db : Db) → (q m db).1.statements ≡ db.statements
  pub jobs :
      (m : Moment) (db : Db) → Distinct (λ j. j.id) db.jobs → Distinct (λ j. j.id) (q m db).1.jobs

module _ (queues : List Queue) where
  pub Sent-mono : (n k : ℕ) (db : Db) → n ≤ k → Sent queues n db → Sent queues k db
  Sent-mono n k db h s = record {
    same_queues = s.same_queues;
    different = s.different;
    count = omega (arith, s.count);
  }

  pub Sent-sent : (n k : ℕ) (db : Db) → n < k → Sent queues n db → Sent queues k (sent db)
  Sent-sent n k db h s = record {
    same_queues = s.same_queues;
    different = s.different;
    count = omega (arith, s.count);
  }

  pub Sent-tame :
      {A : Type 0} (q : Query A) (n : ℕ) (m : Moment) (db : Db)
      → IsTame q
      → Sent queues n db
      → Sent queues n (q m db).1
  Sent-tame q n m db t s = record {
    same_queues = t.queues m db ∙ s.same_queues;
    different = t.jobs m db s.different;
    count = omega (arith, t.statements m db, s.count);
  }

  module _ (total : ℕ) where
    Sent-Post :
        {A : Type 0} (n : ℕ) (r : Result A) (db : Db)
        → n ≤ total
        → Sent queues n db
        → Post (Sent queues total) (λ _. Sent queues n) r db
    Sent-Post n (ok a) db h s = s
    Sent-Post n (throws e) db h s = Sent-mono n total db h s

    pub sends :
        {A : Type 0} (w : World) (q : Query A) (n k : ℕ)
        → IsTame q
        → n < k
        → k ≤ total
        → Ensures (Sent queues total) (Sent queues n) (statement w q) (λ _. Sent queues k)
    sends w q n k t h le =
        Ensures-counted w q (λ db s. Sent-sent n k db h s) (λ db s. Sent-mono k total db le s)
          (λ _ db s. Sent-mono k total db le s)
          (λ m db s. Sent-Post k (q m db).0 (q m db).1 le (Sent-tame q k m db t s))

-- Queries that do not write the table of jobs.
pub idle-IsTame :
    {A : Type 0} (q : Query A)
    → ((m : Moment) (db : Db) → (q m db).1.queues ≡ db.queues)
    → ((m : Moment) (db : Db) → (q m db).1.statements ≡ db.statements)
    → ((m : Moment) (db : Db) → (q m db).1.jobs ≡ db.jobs)
    → IsTame q
idle-IsTame q same count idle = record {
  queues = same;
  statements = count;
  jobs = λ m db d. subst (Distinct (λ j. j.id)) (sym (idle m db)) d;
}

-- The limit of a queue, as its budget reads it, and the statements that its turn takes at most.
abbrev pub limit_of : Queue → ℕ
limit_of q = pos_part (limit_or q.concurrency_limit)

abbrev pub most : List Queue → ℕ
most [] = 0
most (q ∷ qs) = 2 + 7 * limit_of q + most qs
