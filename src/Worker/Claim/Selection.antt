-- ===== src/Worker/Claim/Selection.antt =====
-- Which jobs a claim takes: eligible ones only, the best ones first, and no more than its budget.
use mathlib.Core.Bool.{false≢true}
use job_scheduler.Prelude.{
  take-before-drop, ℕ, ◌+◌, ◌≤◌, ◌≡◌, refl, sym, ◌∙◌, ap, inl, inr, true, false, Option, none, some,
  List, Memᴰ, arith, ◌≤ℤ◌, length, Distinct, map, select, update, mem-select_of_mem,
  mem-take-or-drop, select-congr, update-congr, contains-map_of_mem,
}
use job_scheduler.Db.{Db, Job, claimed}
use job_scheduler.Db.Sql.{Moment, ok}
use job_scheduler.Worker.Claim.{is_claimable, ranks_before, rank, chosen, lease_job, claim}
use job_scheduler.Worker.Claim.Order.{rank-IsSorted, mem-rank_of_mem}
use job_scheduler.Worker.Claim.Chosen.{
  IsEligible, is_claimable-IsEligible, claimable_of_eligible, taken, is_chosen, returned,
  mem-chosen, mem-chosen_of_is_chosen, taken-returned, length-returned-le,
}

-- `next_run_at ASC NULLS FIRST`
abbrev pub NoLater : Option ℕ → Option ℕ → Type 0
NoLater none t = Unit {0}
NoLater (some s) none = ⊥
NoLater (some s) (some t) = s ≤ t

-- A job of at least the other's priority, and if of the same, one that is not due later.
pub record Outranks (k j : Job) : Type 0 where
  pub priority : j.priority ≤ℤ k.priority
  pub then_time : k.priority ≤ℤ j.priority → NoLater k.next_run_at j.next_run_at

ranks_before-Outranks : (k j : Job) → ranks_before k j ≡ true → Outranks k j
unfolding ranks_before
ranks_before-Outranks k j h = ground arith

-- What is known of a claim from its answer.
pub claim-rows :
    (worker_id queue_id budget : ℕ) (m : Moment) (db : Db) {after : Db} {rows : List Job}
    → claim worker_id queue_id budget m db ≡ (ok rows, after)
    → rows ≡ returned m queue_id budget db.jobs worker_id
unfolding claim
claim-rows worker_id queue_id budget m db e = cc

module _ (worker_id queue_id budget : ℕ) (m : Moment) (db : Db) {after : Db} {rows : List Job}
    (e : claim worker_id queue_id budget m db ≡ (ok rows, after))
    (d : Distinct (λ j. j.id) db.jobs) where
  taken-is_chosen :
      {k : Job} → Memᴰ k db.jobs → taken rows k ≡ is_chosen m queue_id budget db.jobs k
  taken-is_chosen mk =
      rw (claim-rows worker_id queue_id budget m db e)
        (taken-returned m queue_id budget db.jobs worker_id d mk)

  pub mem-chosen_of_taken :
      {k : Job} → Memᴰ k db.jobs → taken rows k ≡ true → Memᴰ k (chosen m queue_id budget db.jobs)
  mem-chosen_of_taken mk t =
      mem-chosen_of_is_chosen m queue_id budget db.jobs d mk (sym (taken-is_chosen mk) ∙ t)

  pub not-mem-chosen_of_left :
      {j : Job}
      → Memᴰ j db.jobs
      → taken rows j ≡ false
      → ¬ Memᴰ j (chosen m queue_id budget db.jobs)
  not-mem-chosen_of_left mj t n =
      false≢true (sym t ∙ taken-is_chosen mj ∙ contains-map_of_mem (λ j. j.id) _ n)

pub claim-after :
    (worker_id queue_id budget : ℕ) (m : Moment) (db : Db) {after : Db} {rows : List Job}
    → claim worker_id queue_id budget m db ≡ (ok rows, after)
    → after ≡ record db {
      jobs = update (is_chosen m queue_id budget db.jobs) (lease_job m.now worker_id) db.jobs;
    }
unfolding claim
claim-after worker_id queue_id budget m db e = cc

-- If a claim takes a job and leaves an eligible job of the queue behind, then the job taken has at
-- least the priority of the other, and if they have the same priority it is not due later.
pub claim_priority :
    (worker_id queue_id budget : ℕ) (m : Moment) (db after : Db) (rows : List Job) (k j : Job)
    → Distinct (λ j. j.id) db.jobs
    → claim worker_id queue_id budget m db ≡ (ok rows, after)
    → Memᴰ k db.jobs
    → taken rows k ≡ true
    → Memᴰ j db.jobs
    → IsEligible m queue_id j
    → taken rows j ≡ false
    → Outranks k j
unfolding chosen
claim_priority worker_id queue_id budget m db after rows k j d e mk tk mj fit tj =
    let ranked : List Job = rank (select (is_claimable m queue_id) db.jobs) in
    let waits : Memᴰ j ranked = mem-rank_of_mem _ (
      mem-select_of_mem (is_claimable m queue_id) db.jobs mj
        (claimable_of_eligible m queue_id j fit)) in
    elim (mem-take-or-drop budget ranked waits) [
      | inl t ↦ absurd (not-mem-chosen_of_left worker_id queue_id budget m db e d mj tj t)
      | inr left ↦ ranks_before-Outranks k j (
          take-before-drop ranks_before budget ranked (rank-IsSorted _)
            (mem-chosen_of_taken worker_id queue_id budget m db e d mk tk) left)
    ]

-- A job in the hands of a worker for 30 seconds.
abbrev pub leased : ℕ → ℕ → Job → Job
leased now worker_id j = record j {
  status = claimed;
  worker_id = some worker_id;
  claimed_at = some now;
  lease_expires_at = some (now + 30_000);
  updated_at = now;
}

lease_job-leased : (now worker_id : ℕ) → lease_job now worker_id ≡ leased now worker_id
unfolding lease_job
lease_job-leased now worker_id = refl

-- A claim answers with at most as many rows as its budget; every job that it takes was eligible;
-- and it gives the jobs that it takes, and no others, to the worker for 30 seconds.
pub claim_sound :
    (worker_id queue_id budget : ℕ) (m : Moment) (db after : Db) (rows : List Job)
    → Distinct (λ j. j.id) db.jobs
    → claim worker_id queue_id budget m db ≡ (ok rows, after)
    → (length rows ≤ budget)
      × ((k : Job) → Memᴰ k db.jobs → taken rows k ≡ true → IsEligible m queue_id k)
      × (rows ≡ map (leased m.now worker_id) (select (taken rows) db.jobs))
      × (after ≡ record db { jobs = update (taken rows) (leased m.now worker_id) db.jobs })
claim_sound worker_id queue_id budget m db after rows d e = (
  rw (claim-rows worker_id queue_id budget m db e)
      (length-returned-le m queue_id budget db.jobs worker_id d),
  λ k mk t.
      is_claimable-IsEligible m queue_id k
        (mem-chosen m queue_id budget db.jobs
          (mem-chosen_of_taken worker_id queue_id budget m db e d mk t)).1,
  claim-rows worker_id queue_id budget m db e
      ∙ ap (map (lease_job m.now worker_id)) (select-congr _ _ db.jobs agree)
      ∙ ap (λ f. map f (select (taken rows) db.jobs)) same,
  claim-after worker_id queue_id budget m db e
      ∙ ap (λ l. record db { jobs = l })
          (update-congr _ _ (lease_job m.now worker_id) db.jobs agree)
      ∙ ap (λ f. record db { jobs = update (taken rows) f db.jobs }) same,
)
  where
    agree : (k : Job) → Memᴰ k db.jobs → is_chosen m queue_id budget db.jobs k ≡ taken rows k
    agree k mk = sym (taken-is_chosen worker_id queue_id budget m db e d mk)

    same : lease_job m.now worker_id ≡ leased m.now worker_id
    same = lease_job-leased m.now worker_id
