-- ===== src/Router/Soundness/Appends.antt =====
-- A row with an id that was just drawn, appended to sound tables.
use job_scheduler.Prelude.{
  suc, arith, ◌≡◌, ◌≢◌, sym, ◌∙◌, List, [], ◌∷◌, ◌++◌, All, Distinct-append, All-map,
}
use job_scheduler.Db.{Db, Job}
use job_scheduler.Db.Sql.{World, Moment, moment}
use job_scheduler.Worker.Invariant.{IsSoundRow}
use job_scheduler.Router.Soundness.{DrawsOnce, IsReady}

-- The row has the id that was drawn, and neither a worker nor a lease.
pub record IsNew (m : Moment) (row : Job) : Type 0 where
  pub id : row.id ≡ m.fresh
  pub row_sound : IsSoundRow [] row

All-snoc :
    {A : Type 0} (P : A → Type 0) (a : A) (xs : List A) → All P xs → P a → All P (xs ++ a ∷ [])
All-snoc P a [] h p = (p, tt)
All-snoc P a (x ∷ xs) h p = (h.0, All-snoc P a xs h.1 p)

-- A row with an id that was just drawn joins the tables.
module _ (w : World) (once : DrawsOnce w) (db : Db) (s : IsReady w db) where
  pub append-IsReady :
      (row : Job)
      → IsNew (moment w db) row
      → IsReady w (record db { statements = suc db.statements; jobs = db.jobs ++ row ∷ [] })
  append-IsReady row new = record {
    sound = record {
      job_ids =
          Distinct-append (λ j. j.id) row db.jobs
            (All-map (λ j ne e. ne (e ∙ new.id)) db.jobs (s.unused db.statements (omega arith)))
            s.sound.job_ids;
      rows = All-snoc (IsSoundRow []) row db.jobs s.sound.rows new.row_sound;
      one_heartbeat = s.sound.one_heartbeat;
      one_dead_letter = s.sound.one_dead_letter;
    };
    unused = λ n h.
        All-snoc (λ j. j.id ≢ w.uuid n) row db.jobs (s.unused n (omega (arith, h)))
          λ e. let same = once db.statements n (sym new.id ∙ e) in omega (arith, same, h);
  }
