-- ===== src/Worker/Claim/Capacity.antt =====
-- How many jobs of a queue are in flight, and that a claim leaves no room unused.
use job_scheduler.Prelude.{
  insert_sorted, sort_by, mem-insert_sorted, zero, ℕ, suc, ◌+◌, ◌≤◌, max, ◌≡◌, refl, sym, inl, inr,
  false, Option, List, [], ◌∷◌, Memᴰ, arith, ℤ, pos, pos_part, ◌-ℤ◌, length, count, Distinct,
  select, take, drop, count-update-le, Bool-cases, mem-take-or-drop, mem-select_of_mem,
  Distinct-select, Distinct-take, length-le_found, All, All_of_mem, All-mem, ◌≢◌,
}
use job_scheduler.Db.{Db, Job}
use job_scheduler.Db.Sql.{Moment, ok}
use job_scheduler.Worker.Claim.{
  is_claimable, rank, ranks_before, chosen, lease_job, claim, limit_or, in_flight_of, budget_of,
}
use job_scheduler.Worker.Claim.Order.{mem-rank_of_mem, mem-rank}
use job_scheduler.Worker.Claim.Chosen.{
  IsEligible, claimable_of_eligible, taken, is_chosen, mem-chosen, length-returned,
  length-returned-le,
}
use job_scheduler.Worker.Claim.Selection.{claim-rows, claim-after, not-mem-chosen_of_left}

budget-le : (limit : ℤ) (n : ℕ) → pos_part (limit -ℤ pos n) + n ≤ max (pos_part limit) n
budget-le limit n = ground arith

-- A claim within the budget keeps the number of the queue's jobs in flight within its concurrency
-- limit (5 where none is set), or leaves it where it was above that before.
pub claim_within_limit :
    (worker_id queue_id : ℕ) (limit : Option ℤ) (m : Moment) (db after : Db) (rows : List Job)
    → Distinct (λ j. j.id) db.jobs
    → claim worker_id queue_id (budget_of queue_id db limit) m db ≡ (ok rows, after)
    → count (in_flight_of queue_id) after.jobs
      ≤ max (pos_part (limit_or limit)) (count (in_flight_of queue_id) db.jobs)
unfolding budget_of
claim_within_limit worker_id queue_id limit m db after rows d e =
    let budget = budget_of queue_id db limit in
    rw (claim-after worker_id queue_id budget m db e) (
      omega (
        arith,
        count-update-le (in_flight_of queue_id) (is_chosen m queue_id budget db.jobs)
            (lease_job m.now worker_id) db.jobs,
        length-returned m queue_id budget db.jobs worker_id,
        length-returned-le m queue_id budget db.jobs worker_id d,
        budget-le (limit_or limit) (count (in_flight_of queue_id) db.jobs),
      ))

Distinct-insert_sorted :
    (a : Job) (xs : List Job)
    → All (λ y. y.id ≢ a.id) xs
    → Distinct (λ j. j.id) xs
    → Distinct (λ j. j.id) (insert_sorted ranks_before a xs)
unfolding insert_sorted
Distinct-insert_sorted a [] h d = (tt, tt)
Distinct-insert_sorted a (b ∷ bs) h d = elim (Bool-cases (ranks_before a b)) [
  | inl e ↦ rw e (h, d)
  | inr e ↦ rw e (
    All_of_mem _ (insert_sorted ranks_before a bs) λ y m.
        elim (mem-insert_sorted ranks_before a bs m) [
          | inl q ↦ rw q (λ p. h.0 (sym p))
          | inr n ↦ All-mem (λ z. z.id ≢ b.id) bs d.0 n
        ],
    Distinct-insert_sorted a bs h.1 d.1,
  )
]

Distinct-rank : (xs : List Job) → Distinct (λ j. j.id) xs → Distinct (λ j. j.id) (rank xs)
unfolding rank sort_by
Distinct-rank [] d = tt
Distinct-rank (x ∷ xs) d =
    Distinct-insert_sorted x (rank xs)
      (All_of_mem _ (rank xs) (λ y m. All-mem (λ z. z.id ≢ x.id) xs d.0 (mem-rank xs m)))
      (Distinct-rank xs d.1)

length-take_of_left :
    (n : ℕ) {x : Job} (xs : List Job) → Memᴰ x (drop n xs) → length (take n xs) ≡ n
length-take_of_left zero xs m = refl
length-take_of_left (suc n) [] m = elim m [ ]
length-take_of_left (suc n) (y ∷ ys) m = omega (arith, length-take_of_left n ys m)

-- A claim that leaves an eligible job of the queue behind has used up its budget.
pub claim_saturates :
    (worker_id queue_id budget : ℕ) (m : Moment) (db after : Db) (rows : List Job) (j : Job)
    → Distinct (λ j. j.id) db.jobs
    → claim worker_id queue_id budget m db ≡ (ok rows, after)
    → Memᴰ j db.jobs
    → IsEligible m queue_id j
    → taken rows j ≡ false
    → length rows ≡ budget
unfolding chosen
claim_saturates worker_id queue_id budget m db after rows j d e mj fit tj =
    let fits : List Job = select (is_claimable m queue_id) db.jobs in
    let picked : List Job = take budget (rank fits) in
    let waits : Memᴰ j (rank fits) = mem-rank_of_mem fits (
      mem-select_of_mem (is_claimable m queue_id) db.jobs mj
        (claimable_of_eligible m queue_id j fit)) in
    elim (mem-take-or-drop budget (rank fits) waits) [
      | inl t ↦ absurd (not-mem-chosen_of_left worker_id queue_id budget m db e d mj tj t)
      | inr left ↦ rw (claim-rows worker_id queue_id budget m db e) (
          omega (
            arith,
            length-take_of_left budget (rank fits) left,
            length-returned m queue_id budget db.jobs worker_id,
            length-returned-le m queue_id budget db.jobs worker_id d,
            length-le_found (λ k. k.id) picked db.jobs
                (Distinct-take (λ k. k.id) budget (rank fits)
                  (Distinct-rank fits
                    (Distinct-select (λ k. k.id) (is_claimable m queue_id) db.jobs d)))
                (λ y n. (mem-chosen m queue_id budget db.jobs n).0),
          ))
    ]
