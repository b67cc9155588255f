-- ===== src/Worker/Claim.antt =====
-- The claim and its budget in `runWorkerTick` of dashboard/src/server/worker.ts. Rows that ORDER BY
-- leaves tied, and the rows of RETURNING, come in table order.
pub mod Order
pub mod Chosen
pub mod Selection
pub mod Capacity
pub mod Soundness
use job_scheduler.Prelude.{
  ℕ, ◌+◌, ◌*◌, ℤ, pos, ◌-ℤ◌, pos_part, ltb_ℤ, Bool, true, false, not, ◌&&◌, Option, none, some,
  List, [], ◌∷◌, map, leb, ◌==◌, if◌then◌else◌, select, select_one, update, count, take, contains,
  sort_by, ◌≡◌, refl, inl, inr, Option-cases,
}
use job_scheduler.Db.{Db, Job, claimed, is_queued, is_in_flight}
use job_scheduler.Db.Sql.{Moment, ok, Query}

abbrev pub lease_seconds : ℕ
lease_seconds = 30

-- `(next_run_at IS NULL OR next_run_at <= NOW())`
abbrev is_due : ℕ → Option ℕ → Bool
is_due now none = true
is_due now (some t) = leb t now

-- The WHERE clause of the claim, and the rows that SKIP LOCKED leaves.
unfoldable pub is_claimable : Moment → ℕ → Job → Bool
is_claimable m queue_id j =
    j.queue_id == queue_id
    && is_queued j.status
    && is_due m.now j.next_run_at
    && not (m.locked j.id)

abbrev nulls_first : Option ℕ → Option ℕ → Bool
nulls_first none t = true
nulls_first (some s) none = false
nulls_first (some s) (some t) = leb s t

-- `ORDER BY priority DESC, next_run_at ASC NULLS FIRST`: may the first row stand before the second?
unfoldable pub ranks_before : Job → Job → Bool
ranks_before a b =
    if ltb_ℤ b.priority a.priority
    then true
    else if ltb_ℤ a.priority b.priority
    then false
    else nulls_first a.next_run_at b.next_run_at

unfoldable pub rank : List Job → List Job
unfolding sort_by
rank jobs = sort_by ranks_before jobs

-- The subselect: which rows the claim takes.
unfoldable pub chosen : Moment → ℕ → ℕ → List Job → List Job
chosen m queue_id budget jobs = take budget (rank (select (is_claimable m queue_id) jobs))

unfoldable pub lease_job : ℕ → ℕ → Job → Job
lease_job now worker_id j = record j {
  status = claimed;
  worker_id = some worker_id;
  claimed_at = some now;
  lease_expires_at = some (now + lease_seconds * 1000);
  updated_at = now;
}

unfoldable pub claim : ℕ → ℕ → ℕ → Query (List Job)
unfolding chosen
claim worker_id queue_id budget m db =
    let ids = map (λ j. j.id) (chosen m queue_id budget db.jobs) in
    let is_chosen = λ (j : Job). contains ids j.id in
    (
      ok (map (lease_job m.now worker_id) (select is_chosen db.jobs)),
      record db { jobs = update is_chosen (lease_job m.now worker_id) db.jobs },
    )

abbrev pub limit_or : Option ℤ → ℤ
limit_or none = pos 5
limit_or (some limit) = limit

unfoldable pub in_flight_of : ℕ → Job → Bool
in_flight_of queue_id j = j.queue_id == queue_id && is_in_flight j.status

-- `GREATEST(COALESCE(concurrency_limit, 5) - COUNT(*), 0)`
unfoldable pub budget_of : ℕ → Db → Option ℤ → ℕ
budget_of queue_id db limit =
    pos_part (limit_or limit -ℤ pos (count (in_flight_of queue_id) db.jobs))

-- `budgetRows[0]?.budget ?? 0`
unfoldable pub select_budget : ℕ → Query ℕ
unfolding budget_of
select_budget queue_id m db = elim (select_one (λ q. q.id == queue_id) db.queues) [
  | none ↦ (ok 0, db)
  | some q ↦ (ok (budget_of queue_id db q.concurrency_limit), db)
]

-- The budget is read, and nothing is written.
pub select_budget-same :
    (queue_id : ℕ) (m : Moment) (db : Db) → (select_budget queue_id m db).1 ≡ db
unfolding select_budget
select_budget-same queue_id m db =
    elim (Option-cases (select_one (λ q. q.id == queue_id) db.queues)) [
      | inl e ↦ rw (e, select_budget) refl
      | inr (q, e) ↦ rw (e, select_budget) refl
    ]
