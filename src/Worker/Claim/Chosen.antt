-- ===== src/Worker/Claim/Chosen.antt =====
-- Which rows a claim takes: the rows that its answer names are the rows that its subselect chose.
use mathlib.Core.List.Memᴰ
use mathlib.Core.Bool.{false≢true}
use job_scheduler.Prelude.{
  ℕ, ◌≤◌, ◌≡◌, refl, sym, ap, ◌∙◌, subst, inl, inr, Bool, true, false, Option, none, some, List, [],
  ◌∷◌, map, Memᴰ, arith, Bool-cases, select, contains, Distinct, Distinct-eq, mem-select,
  mem-select_of_mem, mem_of_mem-take, contains-map_of_mem, mem_of_contains-map, length,
  length-take-le, length-select-contains,
}
use job_scheduler.Db.{Job, queued}
use job_scheduler.Db.Sql.{Moment}
use job_scheduler.Worker.Claim.{is_claimable, chosen, rank, lease_job}
use job_scheduler.Worker.Claim.Order.{mem-rank}

-- `next_run_at IS NULL OR next_run_at <= now`
abbrev pub IsDue : ℕ → Option ℕ → Type 0
IsDue now none = Unit {0}
IsDue now (some t) = t ≤ now

-- A job that the queue may hand out at this moment.
pub record IsEligible (m : Moment) (queue_id : ℕ) (j : Job) : Type 0 where
  pub of_queue : j.queue_id ≡ queue_id
  pub waiting : j.status ≡ queued
  pub due : IsDue m.now j.next_run_at
  pub unlocked : m.locked j.id ≡ false

pub is_claimable-IsEligible :
    (m : Moment) (queue_id : ℕ) (j : Job)
    → is_claimable m queue_id j ≡ true
    → IsEligible m queue_id j
unfolding is_claimable
is_claimable-IsEligible m queue_id j h = ground arith

pub claimable_of_eligible :
    (m : Moment) (queue_id : ℕ) (j : Job)
    → IsEligible m queue_id j
    → is_claimable m queue_id j ≡ true
unfolding is_claimable
claimable_of_eligible m queue_id j h = ground arith

abbrev pub ids : List Job → List ℕ
ids = map (λ j. j.id)

-- Does an answer name the row?
abbrev pub taken : List Job → Job → Bool
taken rows j = contains (ids rows) j.id

pub ids-lease_job :
    (now worker_id : ℕ) (xs : List Job) → ids (map (lease_job now worker_id) xs) ≡ ids xs
unfolding lease_job
ids-lease_job now worker_id [] = refl
ids-lease_job now worker_id (x ∷ xs) = ap (◌∷◌ x.id) (ids-lease_job now worker_id xs)

length-map-lease_job :
    (now worker_id : ℕ) (xs : List Job) → length (map (lease_job now worker_id) xs) ≡ length xs
length-map-lease_job now worker_id [] = refl
length-map-lease_job now worker_id (x ∷ xs) = omega (arith, length-map-lease_job now worker_id xs)

length-ids : (xs : List Job) → length (ids xs) ≡ length xs
length-ids [] = refl
length-ids (x ∷ xs) = omega (arith, length-ids xs)

module _ (m : Moment) (queue_id budget : ℕ) (jobs : List Job) where
  pub mem-chosen :
      {k : Job}
      → Memᴰ k (chosen m queue_id budget jobs)
      → Memᴰ k jobs × (is_claimable m queue_id k ≡ true)
  unfolding chosen
  mem-chosen h = mem-select (is_claimable m queue_id) jobs (mem-rank _ (mem_of_mem-take budget _ h))

  abbrev pub is_chosen : Job → Bool
  is_chosen j = contains (ids (chosen m queue_id budget jobs)) j.id

  -- The rows of `RETURNING *`.
  abbrev pub returned : ℕ → List Job
  returned worker_id = map (lease_job m.now worker_id) (select is_chosen jobs)

  pub mem-chosen_of_is_chosen :
      {k : Job}
      → Distinct (λ j. j.id) jobs
      → Memᴰ k jobs
      → is_chosen k ≡ true
      → Memᴰ k (chosen m queue_id budget jobs)
  mem-chosen_of_is_chosen {k} d h e =
      let (x, n, q) = mem_of_contains-map (λ j. j.id) k.id (chosen m queue_id budget jobs) e in
      Memᴰ.cast (sym (Distinct-eq (λ j. j.id) jobs d (mem-chosen n).0 h q)) n

  is_chosen_of_taken :
      (worker_id : ℕ) {k : Job}
      → Distinct (λ j. j.id) jobs
      → Memᴰ k jobs
      → taken (returned worker_id) k ≡ true
      → is_chosen k ≡ true
  is_chosen_of_taken worker_id {k} d h e =
      let kept = select is_chosen jobs in
      let (x, n, q) =
        mem_of_contains-map (λ j. j.id) k.id kept
          (subst (λ l. contains l k.id ≡ true) (ids-lease_job m.now worker_id kept) e) in
      let (o, c) = mem-select is_chosen jobs n in
      subst (λ j. is_chosen j ≡ true) (Distinct-eq (λ j. j.id) jobs d o h q) c

  -- The answer names exactly the chosen rows.
  pub taken-returned :
      (worker_id : ℕ) {k : Job}
      → Distinct (λ j. j.id) jobs
      → Memᴰ k jobs
      → taken (returned worker_id) k ≡ is_chosen k
  taken-returned worker_id {k} d h = elim (Bool-cases (is_chosen k)) [
    | inl e ↦
        rw (ids-lease_job m.now worker_id (select is_chosen jobs))
          (contains-map_of_mem (λ j. j.id) _ (mem-select_of_mem is_chosen jobs h e) ∙ sym e)
    | inr e ↦ elim (Bool-cases (taken (returned worker_id) k)) [
      | inl t ↦ absurd (false≢true (sym e ∙ is_chosen_of_taken worker_id d h t))
      | inr t ↦ t ∙ sym e
    ]
  ]

  pub length-returned :
      (worker_id : ℕ) → length (returned worker_id) ≡ length (select is_chosen jobs)
  length-returned worker_id = length-map-lease_job m.now worker_id (select is_chosen jobs)

  -- No more rows than LIMIT allows.
  pub length-returned-le :
      (worker_id : ℕ) → Distinct (λ j. j.id) jobs → length (returned worker_id) ≤ budget
  unfolding chosen
  length-returned-le worker_id d =
      let picked = chosen m queue_id budget jobs in
      omega (
        arith,
        length-map-lease_job m.now worker_id (select is_chosen jobs),
        length-select-contains (λ j. j.id) (ids picked) jobs d,
        length-ids picked,
        length-take-le budget (rank (select (is_claimable m queue_id) jobs)),
      )
