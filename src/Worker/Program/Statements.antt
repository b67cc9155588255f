-- ===== src/Worker/Program/Statements.antt =====
-- What each statement of a tick does to the jobs that the tick holds, and what it guarantees to others.
use mathlib.Core.Bool.{false≢true}
use job_scheduler.Prelude.{
  and_eq_true, ℕ, ◌≡◌, ◌≢◌, refl, sym, ◌∙◌, subst, inl, inr, true, false, List, [], ◌∷◌, All,
  All-mem, All_of_mem, Distinct, Distinct-eq, Memᴰ, contains, arith, update, ◌==◌, eq_of_==,
  ==_refl, contains-map_of_mem, mem-update, mem-update_miss,
}
use job_scheduler.Db.{Db, Job}
use job_scheduler.Db.Sql.{Moment, Result, ok}
use job_scheduler.Worker.Reaper.{is_stale, reclaim}
use job_scheduler.Worker.Claim.Chosen.{ids}
use job_scheduler.Worker.Execute.{update_job}
use job_scheduler.Worker.Lifecycle.{Rows, Rows-refl, Rows-update, Move, phase_of}
use job_scheduler.Worker.Program.{reap}
use job_scheduler.Worker.Program.Owned.{Guarantee, IsLive, IsOwned, Keeps}

pub Guarantee-refl : (held : List Job) (now : ℕ) (x : Job) → Guarantee held held now x x
Guarantee-refl held now x = record {
  move = record { same_job = refl; moved = inl refl };
  spares = λ out _ _. (refl, out);
}

module _ (since : ℕ) {B : Type 0} where
  -- A statement that leaves the table of jobs alone.
  pub Keeps-idle :
      (held : List Job) (now : ℕ) (db : Db) (r : Result B × Db) (Q : B → List Job → Type 0)
      → (r.1).jobs ≡ db.jobs
      → IsOwned since held db.jobs
      → ((b : B) → r.0 ≡ ok b → Q b held)
      → Keeps since held now db.jobs r Q
  Keeps-idle held now db r Q e o a = record {
    held' = held;
    rows =
        subst (Rows (Guarantee held held now) db.jobs) (sym e)
          (Rows-refl (Guarantee held held now) (Guarantee-refl held now) db.jobs);
    owned = subst (IsOwned since held) (sym e) o;
    answer = a;
  }

-- `UPDATE jobs SET … WHERE id = ${jobId}` for a job that is held, one move of that job.
module _ (since : ℕ) (job : Job) (rest held' : List Job) (f : ℕ → Job → Job) (m : Moment) (db : Db)
    (same : (f m.now job).id ≡ job.id) (move : Move (phase_of job) (phase_of (f m.now job)))
    (fewer : (k : ℕ) → contains (ids (job ∷ rest)) k ≡ false → contains (ids held') k ≡ false)
    (d : Distinct (λ j. j.id) db.jobs) (o : IsOwned since (job ∷ rest) db.jobs) where
  pub updated_rows :
      Rows
        (Guarantee (job ∷ rest) held' m.now)
        db.jobs
        (update (λ j. j.id == job.id) (f m.now) db.jobs)
  updated_rows =
      Rows-update (Guarantee (job ∷ rest) held' m.now) (λ j. j.id == job.id) (f m.now) db.jobs
        (λ x n e. hit x n e) (λ x n e. miss x)
    where
      hit :
          (x : Job)
          → Memᴰ x db.jobs
          → (x.id == job.id) ≡ true
          → Guarantee (job ∷ rest) held' m.now x (f m.now x)
      hit x n e =
          let q = Distinct-eq (λ j. j.id) db.jobs d n o.present.0 (eq_of_== x.id job.id e) in
          subst (λ z. Guarantee (job ∷ rest) held' m.now z (f m.now z)) (sym q)
            (record {
              move = record { same_job = same; moved = inr move };
              spares = λ out _ _. absurd (
                  false≢true
                    (sym out ∙ contains-map_of_mem (λ j. j.id) (job ∷ rest) (Memᴰ.head refl)));
            })

      miss : (x : Job) → Guarantee (job ∷ rest) held' m.now x x
      miss x = record {
        move = record { same_job = refl; moved = inl refl };
        spares = λ out _ _. (refl, fewer x.id out);
      }

  -- The other rows that are held stay in the table.
  pub rest_present : All (λ k. Memᴰ k (update (λ j. j.id == job.id) (f m.now) db.jobs)) rest
  rest_present = All_of_mem _ rest λ k n.
      let other : k.id ≢ job.id = All-mem (λ j. j.id ≢ job.id) rest o.different.0 n in
      mem-update_miss (λ j. j.id == job.id) (f m.now) db.jobs
        (All-mem (λ j. Memᴰ j db.jobs) rest o.present.1 n) (ground arith)

module _ (since : ℕ) (job : Job) (rest : List Job) (f : ℕ → Job → Job) (m : Moment) (db : Db)
    (same : (f m.now job).id ≡ job.id) (move : Move (phase_of job) (phase_of (f m.now job)))
    (d : Distinct (λ j. j.id) db.jobs) (o : IsOwned since (job ∷ rest) db.jobs) where
  -- The job is settled, and no longer held.
  pub Keeps-settle :
      (Q : Unit {0} → List Job → Type 0)
      → Q tt rest
      → Keeps since (job ∷ rest) m.now db.jobs (update_job job.id f m db) Q
  unfolding update_job
  Keeps-settle Q q = record {
    held' = rest;
    rows = updated_rows since job rest rest f m db same move (λ k out. ground arith) d o;
    owned = record {
      present = rest_present since job rest rest f m db same move (λ k out. ground arith) d o;
      live = o.live.1;
      different = o.different.1;
    };
    answer = λ b _. q;
  }

  -- The job is still held, as it is now.
  pub Keeps-update :
      (Q : Unit {0} → List Job → Type 0)
      → IsLive since (f m.now job)
      → Q tt (f m.now job ∷ rest)
      → Keeps since (job ∷ rest) m.now db.jobs (update_job job.id f m db) Q
  unfolding update_job
  Keeps-update Q live q = record {
    held' = f m.now job ∷ rest;
    rows =
        updated_rows since job rest (f m.now job ∷ rest) f m db same move (λ k out. rw same out) d
          o;
    owned = record {
      present = (
        mem-update (λ j. j.id == job.id) (f m.now) db.jobs o.present.0 (==_refl job.id),
        rest_present since job rest (f m.now job ∷ rest) f m db same move (λ k out. rw same out) d
            o,
      );
      live = (live, o.live.1);
      different = (rw same o.different.0, o.different.1);
    };
    answer = λ b _. q;
  }

reaped : (now : ℕ) (x : Job) → is_stale now x ≡ true → Guarantee [] [] now x (reclaim now x)
unfolding is_stale reclaim
reaped now x e = record {
  move = record { same_job = refl; moved = inr (Move.reclaim (and_eq_true _ _ e).0) };
  spares = λ _ _ fresh. absurd (false≢true (sym fresh ∙ e));
}

-- The reaper, sent by a tick that holds nothing.
pub Keeps-reap :
    (since : ℕ) (m : Moment) (db : Db) (Q : Unit {0} → List Job → Type 0)
    → Q tt []
    → Keeps since [] m.now db.jobs (reap m db) Q
Keeps-reap since m db Q q = record {
  held' = [];
  rows =
      Rows-update (Guarantee [] [] m.now) (is_stale m.now) (reclaim m.now) db.jobs
        (λ x _. reaped m.now x) (λ x _ _. Guarantee-refl [] m.now x);
  owned = record { present = tt; live = tt; different = tt };
  answer = λ b _. q;
}
