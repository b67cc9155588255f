-- ===== src/Worker/Tick/Length/Queues.antt =====
-- The statements of each queue's turn.
use job_scheduler.Prelude.{
  mem_of_select_one, eq_of_==, ℕ, suc, ◌+◌, ◌*◌, ◌≤◌, ◌≡◌, sym, subst, inl, inr, Option, some, List,
  [], ◌∷◌, length, ℤ, pos_part, arith, Distinct, Distinct-update, Distinct-eq, Memᴰ, select_one,
  ◌==◌, All, Option-cases,
}
use job_scheduler.Db.{Db, Job, Queue}
use job_scheduler.Db.Sql.{World, Moment, statement}
use job_scheduler.Db.Ensures.{
  Ensures, Ensures-counted, Ensures-bind, Ensures-pure, Ensures-if, Post,
}
use job_scheduler.Worker.Claim.{select_budget, claim, lease_job, budget_of, limit_or}
use job_scheduler.Worker.Claim.Soundness.{lease_id}
use job_scheduler.Worker.Claim.Chosen.{is_chosen, length-returned-le}
use job_scheduler.Worker.Tick.{execute_all, claim_and_execute, run_queue, run_queues}
use job_scheduler.Worker.Tick.Length.{Sent, Sent-mono, Sent-sent, limit_of, most}
use job_scheduler.Worker.Tick.Length.Attempts.{execute_job-sends}

budget_of-le :
    (queue_id : ℕ) (db : Db) (limit : Option ℤ)
    → budget_of queue_id db limit ≤ pos_part (limit_or limit)
unfolding budget_of
budget_of-le queue_id db limit = ground arith

module _ (w : World) (queues : List Queue) (total : ℕ) where
  execute_all-sends :
      (worker_id processed : ℕ) (jobs : List Job) (n k : ℕ)
      → n + 7 * length jobs ≤ k
      → k ≤ total
      → Ensures
          (Sent queues total)
          (Sent queues n)
          (execute_all w worker_id processed jobs)
          (λ _. Sent queues k)
  unfolding execute_all
  execute_all-sends worker_id processed [] n k h le =
      Ensures-pure processed (λ db s. Sent-mono queues n k db (omega arith) s)
  execute_all-sends worker_id processed (job ∷ jobs) n k h le =
      Ensures-bind _ _
        (execute_job-sends w queues total job worker_id n (n + 7) (omega arith) (omega arith))
        (λ _. execute_all-sends worker_id (suc processed) jobs (n + 7) k (omega arith) le)

  claim-sends :
      (worker_id queue_id budget n : ℕ)
      → n + 1 ≤ total
      → Ensures
          (Sent queues total)
          (Sent queues n)
          (statement w (claim worker_id queue_id budget))
          (λ rows db. (length rows ≤ budget) × Sent queues (n + 1) db)
  unfolding claim
  claim-sends worker_id queue_id budget n h =
      Ensures-counted w (claim worker_id queue_id budget)
        (λ db s. Sent-sent queues n (n + 1) db (omega arith) s)
        (λ db s. Sent-mono queues (n + 1) total db h s)
        (λ _ db s. Sent-mono queues (n + 1) total db h s.1)
        λ m db s. (
          length-returned-le m queue_id budget db.jobs worker_id s.different,
          record {
            same_queues = s.same_queues;
            different =
                Distinct-update (λ j. j.id) (is_chosen m queue_id budget db.jobs)
                  (lease_job m.now worker_id) db.jobs (lease_id m.now worker_id) s.different;
            count = s.count;
          },
        )

  -- The turn of a queue: its budget is at most its limit.
  module _ (worker_id : ℕ) (q : Queue) where
    found_row :
        (db : Db) (r : Queue)
        → Distinct (λ x. x.id) db.queues
        → Memᴰ q db.queues
        → select_one (λ x. x.id == q.id) db.queues ≡ some r
        → budget_of q.id db r.concurrency_limit ≤ limit_of q
    found_row db r d n e =
        let (there, same) = mem_of_select_one (λ (x : Queue). x.id == q.id) db.queues e in
        let one = Distinct-eq (λ x. x.id) db.queues d there n (eq_of_== r.id q.id same) in
        subst (λ (x : Queue). budget_of q.id db r.concurrency_limit ≤ limit_of x) one
          (budget_of-le q.id db r.concurrency_limit)

    budget_Post :
        (n : ℕ) (m : Moment) (db : Db)
        → Distinct (λ r. r.id) queues
        → Memᴰ q queues
        → Sent queues n db
        → Post
            (Sent queues total)
            (λ budget after. (budget ≤ limit_of q) × Sent queues n after)
            (select_budget q.id m db).0
            (select_budget q.id m db).1
    unfolding select_budget
    budget_Post n m db d there s =
        let d' = subst (Distinct (λ (r : Queue). r.id)) (sym s.same_queues) d in
        let there' = subst (Memᴰ q) (sym s.same_queues) there in
        elim (Option-cases (select_one (λ r. r.id == q.id) db.queues)) [
          | inl e ↦ rw (e, select_budget) (omega arith, s)
          | inr (r, e) ↦ rw (e, select_budget) (found_row db r d' there' e, s)
        ]

    select_budget-sends :
        (n : ℕ)
        → n + 1 ≤ total
        → Distinct (λ r. r.id) queues
        → Memᴰ q queues
        → Ensures
            (Sent queues total)
            (Sent queues n)
            (statement w (select_budget q.id))
            (λ budget db. (budget ≤ limit_of q) × Sent queues (n + 1) db)
    select_budget-sends n h d there =
        Ensures-counted w (select_budget q.id)
          (λ db s. Sent-sent queues n (n + 1) db (omega arith) s)
          (λ db s. Sent-mono queues (n + 1) total db h s)
          (λ _ db s. Sent-mono queues (n + 1) total db h s.1)
          (λ m db s. budget_Post (n + 1) m db d there s)

    claim_and_execute-sends :
        (processed budget n k : ℕ)
        → budget ≤ limit_of q
        → n + 1 + 7 * limit_of q ≤ k
        → k ≤ total
        → Ensures
            (Sent queues total)
            (Sent queues n)
            (claim_and_execute w worker_id processed q budget)
            (λ _. Sent queues k)
    unfolding claim_and_execute
    claim_and_execute-sends processed budget n k b h le =
        Ensures-if (budget == 0)
          (Ensures-pure processed (λ db s. Sent-mono queues n k db (omega arith) s))
          (Ensures-bind _ _ (claim-sends worker_id q.id budget n (omega arith)) λ rows. record {
            at = λ db s.
                (execute_all-sends worker_id processed rows (n + 1) k (omega (arith, s.0)) le).at db
                  s.1;
          })

    run_queue-sends :
        (processed n k : ℕ)
        → Distinct (λ r. r.id) queues
        → Memᴰ q queues
        → n + 2 + 7 * limit_of q ≤ k
        → k ≤ total
        → Ensures
            (Sent queues total)
            (Sent queues n)
            (run_queue w worker_id processed q)
            (λ _. Sent queues k)
    unfolding run_queue
    run_queue-sends processed n k d there h le =
        Ensures-bind _ _ (select_budget-sends n (omega arith) d there) λ budget. record {
          at = λ db s.
              (claim_and_execute-sends processed budget (n + 1) k s.0 (omega arith) le).at db s.1;
        }

  pub run_queues-sends :
      (worker_id processed : ℕ) (qs : List Queue) (n k : ℕ)
      → Distinct (λ r. r.id) queues
      → All (λ q. Memᴰ q queues) qs
      → n + most qs ≤ k
      → k ≤ total
      → Ensures
          (Sent queues total)
          (Sent queues n)
          (run_queues w worker_id processed qs)
          (λ _. Sent queues k)
  unfolding run_queues
  run_queues-sends worker_id processed [] n k d there h le =
      Ensures-pure processed (λ db s. Sent-mono queues n k db (omega arith) s)
  run_queues-sends worker_id processed (q ∷ qs) n k d there h le =
      Ensures-bind _ _
        (run_queue-sends worker_id q processed n (n + (2 + 7 * limit_of q)) d there.0 (omega arith)
          (omega arith))
        (λ processed'.
          run_queues-sends worker_id processed' qs (n + (2 + 7 * limit_of q)) k d there.1
            (omega arith) le)
