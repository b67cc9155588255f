-- ===== src/Db/Sql.antt =====
-- How dashboard/src/server sends statements: each tagged template of the `sql` client is one
-- transaction of its own, which runs at a time NOW(), may draw a new id, and may fail. What the
-- database server and the network do is a record `World`, a parameter of every program.
use job_scheduler.Prelude.{ℕ, suc, ℤ, String, Bool}
use job_scheduler.Json.{Js}
use job_scheduler.Db.{Db}

-- A statement is served; or refused, with no effect; or served, and its answer lost.
pub data Fault : Type 0 where
  served : Fault
  refused lost : String → Fault

-- Each field but `js` is indexed by the number of the statement.
pub record World : Type 0 where
  pub js : Js
  -- NOW()
  pub clock : ℕ → ℕ
  -- gen_random_uuid()
  pub uuid : ℕ → ℕ
  pub fault : ℕ → Fault
  -- the job rows that other transactions hold locked
  pub locked : ℕ → ℕ → Bool
  -- the difference of the two readings of Date.now() around the payload's work
  pub stopwatch : ℕ → ℤ

-- What a statement reads of the world.
pub record Moment : Type 0 where
  pub now : ℕ
  pub fresh : ℕ
  pub locked : ℕ → Bool

pub data Result (A : Type 0) : Type 0 where
  ok : A → Result A
  throws : String → Result A

-- One statement of SQL.
abbrev pub Query : Type 0 → Type 0
Query A = Moment → Db → Result A × Db

-- A program; the database outlives an exception.
abbrev pub Action : Type 0 → Type 0
Action A = Db → Result A × Db

abbrev pub moment : World → Db → Moment
moment w db = record {
  now = w.clock db.statements;
  fresh = w.uuid db.statements;
  locked = w.locked db.statements;
}

abbrev pub sent : Db → Db
sent db = record db { statements = suc db.statements }

unfoldable pub statement : {A : Type 0} → World → Query A → Action A
statement w query db = elim (w.fault db.statements) [
  | served ↦ query (moment w db) (sent db)
  | refused message ↦ (throws message, sent db)
  | lost message ↦ (throws message, (query (moment w db) (sent db)).1)
]

abbrev pub pure : {A : Type 0} → A → Action A
pure a db = (ok a, db)

abbrev pub throw : {A : Type 0} → String → Action A
throw message db = (throws message, db)

-- What may throw and sends no statement.
abbrev pub lift : {A : Type 0} → Result A → Action A
lift r db = (r, db)

infixl 5 ◌>>?◌
-- One conversion that may throw behind another.
abbrev pub ◌>>?◌ : {A B : Type 0} → Result A → (A → Result B) → Result B
ok a >>? f = f a
throws message >>? f = throws message

abbrev pub and_then : {A B : Type 0} → Result A → (A → Action B) → Action B
and_then (ok a) f = f a
and_then (throws message) f = throw message

infixl 5 ◌>>=◌ ◌>>◌
abbrev pub ◌>>=◌ : {A B : Type 0} → Action A → (A → Action B) → Action B
m >>= f = λ db. let (result, after) = m db in and_then result f after

abbrev pub ◌>>◌ : {A B : Type 0} → Action A → Action B → Action B
m >> n = m >>= λ _. n
