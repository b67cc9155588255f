-- ===== src/Examples/Claims.antt =====
-- A claim of two of three jobs.
use job_scheduler.Prelude.{
  insert_sorted, ◌≤◌, max, ◌≡◌, refl, List, [], ◌∷◌, Memᴰ, arith, some, pos, length, count,
  Distinct, select, update, map, true,
}
use job_scheduler.Db.{Db, Job}
use job_scheduler.Db.Sql.{Moment, moment, ok}
use job_scheduler.Worker.Claim.{
  claim, lease_job, in_flight_of, budget_of, is_claimable, ranks_before, rank,
}
use job_scheduler.Worker.Claim.Chosen.{IsEligible, taken}
use job_scheduler.Worker.Claim.Selection.{Outranks, leased, claim_priority, claim_sound}
use job_scheduler.Worker.Claim.Capacity.{claim_within_limit, claim_saturates}
use job_scheduler.Samples.{calm, busy, low, high, middle}

abbrev start : Moment
start = moment calm busy

abbrev rows : List Job
rows = lease_job start.now 77 high ∷ lease_job start.now 77 middle ∷ []

abbrev claimed_db : Db
claimed_db = record busy {
  jobs = low ∷ lease_job start.now 77 high ∷ lease_job start.now 77 middle ∷ [];
}

busy-Distinct : Distinct (λ j. j.id) busy.jobs
busy-Distinct = omega arith

claims_two : claim 77 10 2 start busy ≡ (ok rows, claimed_db)
unfolding claim is_claimable ranks_before rank insert_sorted lease_job
claims_two = refl

budget_busy : claim 77 10 (budget_of 10 busy (some (pos 2))) start busy ≡ (ok rows, claimed_db)
unfolding claim is_claimable ranks_before rank insert_sorted lease_job budget_of in_flight_of
budget_busy = refl

low-IsEligible : IsEligible start 10 low
low-IsEligible = record { of_queue = refl; waiting = refl; due = omega arith; unlocked = refl }

claim_priority_example : Outranks middle low
unfolding lease_job
claim_priority_example =
    claim_priority 77 10 2 start busy claimed_db rows middle low busy-Distinct claims_two
      (Memᴰ.tail (Memᴰ.tail (Memᴰ.head refl))) refl (Memᴰ.head refl) low-IsEligible refl

claim_sound_example :
    (length rows ≤ 2)
    × ((k : Job) → Memᴰ k busy.jobs → taken rows k ≡ true → IsEligible start 10 k)
    × (rows ≡ map (leased start.now 77) (select (taken rows) busy.jobs))
    × (claimed_db ≡ record busy { jobs = update (taken rows) (leased start.now 77) busy.jobs })
claim_sound_example = claim_sound 77 10 2 start busy claimed_db rows busy-Distinct claims_two

claim_within_limit_example :
    count (in_flight_of 10) claimed_db.jobs ≤ max 2 (count (in_flight_of 10) busy.jobs)
claim_within_limit_example =
    claim_within_limit 77 10 (some (pos 2)) start busy claimed_db rows busy-Distinct budget_busy

claim_saturates_example : length rows ≡ 2
unfolding lease_job
claim_saturates_example =
    claim_saturates 77 10 2 start busy claimed_db rows low busy-Distinct claims_two (Memᴰ.head refl)
      low-IsEligible refl
