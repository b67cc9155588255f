-- ===== src/Worker/Program/Claiming.antt =====
-- What the claim of a tick does to the table, and what it guarantees to others.
use mathlib.Core.Bool.{false≢true}
use job_scheduler.Prelude.{
  ℕ, ◌+◌, ◌*◌, ◌≤◌, ◌≡◌, refl, sym, ap, ◌∙◌, subst, inl, inr, true, false, List, [], ◌∷◌, All,
  Distinct, Distinct-select, Memᴰ, arith, map, mem-update-select,
}
use job_scheduler.Db.{Db, Job, claimed, is_in_flight, queued}
use job_scheduler.Db.Sql.{Moment}
use job_scheduler.Worker.Claim.{lease_seconds, lease_job, claim}
use job_scheduler.Worker.Claim.Chosen.{
  returned, is_chosen, mem-chosen_of_is_chosen, mem-chosen, taken-returned, is_claimable-IsEligible,
}
use job_scheduler.Worker.Claim.Soundness.{map-Distinct}
use job_scheduler.Worker.Lifecycle.{Rows-update, Moved, Move}
use job_scheduler.Worker.Program.Owned.{Guarantee, IsLive, Keeps}

leased-IsLive :
    (since now worker_id : ℕ) (xs : List Job)
    → since ≤ now
    → All (IsLive since) (map (lease_job now worker_id) xs)
unfolding lease_job
leased-IsLive since now worker_id [] h = tt
leased-IsLive since now worker_id (x ∷ xs) h = (
  record { in_flight = refl; until = now + lease_seconds * 1000; lease = refl; long = omega arith },
  leased-IsLive since now worker_id xs h,
)

leased_claimed :
    (now worker_id : ℕ) (xs : List Job)
    → All (λ j. j.status ≡ claimed) (map (lease_job now worker_id) xs)
unfolding lease_job
leased_claimed now worker_id [] = tt
leased_claimed now worker_id (x ∷ xs) = (refl, leased_claimed now worker_id xs)

leased_move :
    (now worker_id : ℕ) (x : Job) → x.status ≡ queued → Moved x (lease_job now worker_id x)
unfolding lease_job
leased_move now worker_id x e = record { same_job = refl; moved = inr (Move.claim e) }

module _ (since : ℕ) (m : Moment) (db : Db) (queue_id worker_id budget : ℕ) (late : since ≤ m.now)
    (d : Distinct (λ j. j.id) db.jobs) where
  eligible :
      (x : Job) → Memᴰ x db.jobs → is_chosen m queue_id budget db.jobs x ≡ true → x.status ≡ queued
  eligible x n e =
      (is_claimable-IsEligible m queue_id x
        (mem-chosen m queue_id budget db.jobs
          (mem-chosen_of_is_chosen m queue_id budget db.jobs d n e)).1).waiting

  taken_row :
      (x : Job)
      → Memᴰ x db.jobs
      → is_chosen m queue_id budget db.jobs x ≡ true
      → Guarantee []
          (returned m queue_id budget db.jobs worker_id)
          m.now
          x
          (lease_job m.now worker_id x)
  taken_row x n e =
      let waiting = eligible x n e in
      record {
        move = leased_move m.now worker_id x waiting;
        spares = λ _ flight _. absurd (false≢true (ap is_in_flight (sym waiting) ∙ flight));
      }

  left_row :
      (x : Job)
      → Memᴰ x db.jobs
      → is_chosen m queue_id budget db.jobs x ≡ false
      → Guarantee [] (returned m queue_id budget db.jobs worker_id) m.now x x
  left_row x n e = record {
    move = record { same_job = refl; moved = inl refl };
    spares = λ _ _ _. (refl, taken-returned m queue_id budget db.jobs worker_id d n ∙ e);
  }

  batch_different : Distinct (λ j. j.id) (returned m queue_id budget db.jobs worker_id)
  batch_different =
      map-Distinct m.now worker_id _
        (Distinct-select (λ j. j.id) (is_chosen m queue_id budget db.jobs) db.jobs d)

  -- The claim, sent by a tick that holds nothing: it then holds what the answer names.
  pub Keeps-claim :
      (Q : List Job → List Job → Type 0)
      → ((rows : List Job)
          → Distinct (λ j. j.id) rows
          → All (λ j. j.status ≡ claimed) rows
          → Q rows rows)
      → Keeps since [] m.now db.jobs (claim worker_id queue_id budget m db) Q
  unfolding claim
  Keeps-claim Q q = record {
    held' = returned m queue_id budget db.jobs worker_id;
    rows =
        Rows-update (Guarantee [] (returned m queue_id budget db.jobs worker_id) m.now)
          (is_chosen m queue_id budget db.jobs) (lease_job m.now worker_id) db.jobs taken_row
          left_row;
    owned = record {
      present =
          mem-update-select (is_chosen m queue_id budget db.jobs) (lease_job m.now worker_id)
            db.jobs;
      live = leased-IsLive since m.now worker_id _ late;
      different = batch_different;
    };
    answer = λ b e.
        let picked = returned m queue_id budget db.jobs worker_id in
        subst (λ rows. Q rows picked) (cc)
          (q picked batch_different (leased_claimed m.now worker_id _));
  }
