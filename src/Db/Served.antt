-- ===== src/Db/Served.antt =====
-- A statement that is served has the effect and the answer of its query.
use job_scheduler.Prelude.{ℕ, zero, suc, ◌≡◌, refl}
use job_scheduler.Db.{Db}
use job_scheduler.Db.Sql.{World, served, moment, sent, Query, Action, statement, and_then, ◌>>=◌}

pub statement_served :
    {A : Type 0} (w : World) (query : Query A) (db : Db)
    → w.fault db.statements ≡ served
    → statement w query db ≡ query (moment w db) (sent db)
unfolding statement
statement_served w query db h = rw (h, statement) refl

-- The next statements, as many as the second number says, are served.
abbrev pub ServedFrom : World → ℕ → ℕ → Type 0
ServedFrom w n zero = Unit {0}
ServedFrom w n (suc k) = (w.fault n ≡ served) × ServedFrom w (suc n) k

-- The first statement of a program that is served.
pub served-bind :
    {A B : Type 0} (w : World) (query : Query A) (f : A → Action B) (db : Db)
    → w.fault db.statements ≡ served
    → (statement w query >>= f) db
      ≡ and_then (query (moment w db) (sent db)).0 f (query (moment w db) (sent db)).1
served-bind w query f db h = rw (statement_served w query db h)
