-- ===== src/Worker/Claim/Soundness.antt =====
-- A claim keeps the tables sound, and the jobs that it answers with are in flight.
use mathlib.Core.Bool.{false≢true}
use job_scheduler.Prelude.{
  ℕ, ◌≡◌, ◌≢◌, refl, sym, ◌∙◌, subst, true, false, List, [], ◌∷◌, map, All, Distinct, contains,
  select, Distinct-select, mem_of_contains-map, mem-select,
}
use job_scheduler.Db.{Db, Job}
use job_scheduler.Db.Sql.{World, Moment, statement}
use job_scheduler.Db.Ensures.{Ensures, Ensures-statement, Post}
use job_scheduler.Worker.Invariant.{
  IsSoundRow, IsSound, IsSoundHeld, IsSoundHeld-IsSound, update-IsSoundHeld,
}
use job_scheduler.Worker.Claim.{lease_job, claim, chosen}
use job_scheduler.Worker.Claim.Chosen.{ids, is_chosen, returned, ids-lease_job}

-- The rows of an answer have different ids, and all are in flight.
pub record IsHeldBatch (rows : List Job) (db : Db) : Type 0 where
  pub sound : IsSoundHeld (ids rows) db
  pub different : Distinct (λ j. j.id) rows

lease_row :
    (held : List ℕ) (now worker_id : ℕ) (j : Job) → IsSoundRow held (lease_job now worker_id j)
unfolding lease_job
lease_row held now worker_id j = record { worker = refl; lease = refl; in_flight = λ c. refl }

pub lease_id : (now worker_id : ℕ) (j : Job) → (lease_job now worker_id j).id ≡ j.id
unfolding lease_job
lease_id now worker_id j = refl

map-All :
    (now worker_id k : ℕ) (xs : List Job)
    → All (λ j. j.id ≢ k) xs
    → All (λ j. j.id ≢ k) (map (lease_job now worker_id) xs)
map-All now worker_id k [] a = tt
map-All now worker_id k (x ∷ xs) a =
    (rw (lease_id now worker_id x) a.0, map-All now worker_id k xs a.1)

pub map-Distinct :
    (now worker_id : ℕ) (xs : List Job)
    → Distinct (λ j. j.id) xs
    → Distinct (λ j. j.id) (map (lease_job now worker_id) xs)
map-Distinct now worker_id [] d = tt
map-Distinct now worker_id (x ∷ xs) d =
    rw (lease_id now worker_id x)
      (map-All now worker_id x.id xs d.0, map-Distinct now worker_id xs d.1)

-- An answer names no row that was not chosen.
is_chosen_of_named :
    (m : Moment) (queue_id budget worker_id : ℕ) (jobs : List Job) (j : Job)
    → contains (ids (returned m queue_id budget jobs worker_id)) j.id ≡ true
    → is_chosen m queue_id budget jobs j ≡ true
is_chosen_of_named m queue_id budget worker_id jobs j c =
    let picked = is_chosen m queue_id budget jobs in
    let (x, n, q) =
      mem_of_contains-map (λ k. k.id) j.id (select picked jobs)
        (subst (λ l. contains l j.id ≡ true) (ids-lease_job m.now worker_id (select picked jobs))
          c) in
    subst (λ k. contains (ids (chosen m queue_id budget jobs)) k ≡ true) q
      (mem-select picked jobs n).1

unnamed_row :
    (m : Moment) (queue_id budget worker_id : ℕ) (jobs : List Job) (j : Job)
    → is_chosen m queue_id budget jobs j ≡ false
    → IsSoundRow [] j
    → IsSoundRow (ids (returned m queue_id budget jobs worker_id)) j
unnamed_row m queue_id budget worker_id jobs j e r = record {
  worker = r.worker;
  lease = r.lease;
  in_flight =
      λ c. absurd (false≢true (sym e ∙ is_chosen_of_named m queue_id budget worker_id jobs j c));
}

claim-Post :
    (worker_id queue_id budget : ℕ) (m : Moment) (db : Db)
    → IsSound db
    → Post IsSound IsHeldBatch
        (claim worker_id queue_id budget m db).0
        (claim worker_id queue_id budget m db).1
unfolding claim
claim-Post worker_id queue_id budget m db s = record {
  sound =
      update-IsSoundHeld [] _ (is_chosen m queue_id budget db.jobs) (lease_job m.now worker_id) db
        (lease_id m.now worker_id) (λ j _ _. lease_row _ m.now worker_id j)
        (unnamed_row m queue_id budget worker_id db.jobs) s;
  different = map-Distinct m.now worker_id _ (Distinct-select (λ j. j.id) _ db.jobs s.job_ids);
}

pub claim-IsHeldBatch :
    (w : World) (worker_id queue_id budget : ℕ)
    → Ensures IsSound IsSound (statement w (claim worker_id queue_id budget)) IsHeldBatch
claim-IsHeldBatch w worker_id queue_id budget =
    Ensures-statement w (claim worker_id queue_id budget) (λ db s. s) (λ db s. s)
      (λ rows db h. IsSoundHeld-IsSound (ids rows) db h.sound)
      (claim-Post worker_id queue_id budget)
