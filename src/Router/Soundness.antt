-- ===== src/Router/Soundness.antt =====
-- The invariant of the worker under the requests of dashboard/src/server/router.ts: what the handlers
-- of the API do to the tables that the worker relies on.
pub mod Reads
pub mod Writes
pub mod Retries
pub mod Appends
pub mod Submits
pub mod Requests
use job_scheduler.Prelude.{
  ℕ, ◌≡◌, ◌≢◌, refl, sym, subst, ◌≤◌, ◌∙◌, inl, inr, Bool, String, Option, none, some, List, [],
  ◌∷◌, ◌++◌, All, Distinct, arith,
}
use job_scheduler.Db.{Db, Job, Heartbeat, DeadLetter}
use job_scheduler.Db.Sql.{
  World, Moment, moment, sent, Result, ok, throws, Query, Action, statement, lift, ◌>>=◌,
}
use job_scheduler.Db.Ensures.{Ensures, Ensures-moment, Ensures-bind, Ensures-lift, Post}
use job_scheduler.Worker.Invariant.{IsSoundTables, IsSound}
use job_scheduler.Router.{request_tick}

-- `gen_random_uuid()` gives no id twice.
abbrev pub DrawsOnce : World → Type 0
DrawsOnce w = (m n : ℕ) → w.uuid m ≡ w.uuid n → m ≡ n

-- The tables are sound, and `gen_random_uuid()` will give no id that a job has.
pub record IsReady (w : World) (db : Db) : Type 0 where
  pub sound : IsSound db
  pub unused : (n : ℕ) → db.statements ≤ n → All (λ j. j.id ≢ w.uuid n) db.jobs

-- A query that writes none of the tables of the invariant and sends nothing.
pub record IsQuiet {A : Type 0} (m : Action A) : Type 0 where
  pub jobs : (db : Db) → (m db).1.jobs ≡ db.jobs
  pub heartbeats : (db : Db) → (m db).1.heartbeats ≡ db.heartbeats
  pub dead_letters : (db : Db) → (m db).1.dead_letters ≡ db.dead_letters
  pub statements : (db : Db) → (m db).1.statements ≡ db.statements

pub IsQuiet-lift :
    {A B : Type 0} (r : Result A) (f : A → Action B)
    → ((a : A) → IsQuiet (f a))
    → IsQuiet (lift r >>= f)
IsQuiet-lift (ok a) f h = h a
IsQuiet-lift (throws s) f h = record {
  jobs = λ db. refl;
  heartbeats = λ db. refl;
  dead_letters = λ db. refl;
  statements = λ db. refl;
}

sound_at :
    (db : Db) (jobs : List Job) (hs : List Heartbeat) (ds : List DeadLetter)
    → jobs ≡ db.jobs
    → hs ≡ db.heartbeats
    → ds ≡ db.dead_letters
    → IsSound db
    → IsSoundTables [] jobs hs ds
sound_at db jobs hs ds e f g s = rw (e, f, g) s

quiet-IsReady :
    {A : Type 0} (w : World) (m : Action A) (db : Db)
    → IsQuiet m
    → IsReady w db
    → IsReady w (m db).1
quiet-IsReady w m db q s = record {
  sound = sound_at db _ _ _ (q.jobs db) (q.heartbeats db) (q.dead_letters db) s.sound;
  unused = λ n h.
      subst (All (λ j. j.id ≢ w.uuid n)) (sym (q.jobs db))
        (s.unused n (subst (λ k. k ≤ n) (q.statements db) h));
}

-- From tables that are ready the program ends in such tables, whatever fails.
abbrev pub Keeps : {A : Type 0} → World → Action A → Type 0
Keeps w m = Ensures (IsReady w) (IsReady w) m (λ _. IsReady w)

pub sent-IsReady : (w : World) (db : Db) → IsReady w db → IsReady w (sent db)
sent-IsReady w db s = record { sound = s.sound; unused = λ n h. s.unused n (omega (arith, h)) }

pub each : {A : Type 0} (R : Db → Type 0) (r : Result A) (db : Db) → R db → Post R (λ _. R) r db
each R (ok a) db s = s
each R (throws e) db s = s

pub Keeps-statement :
    {A : Type 0} (w : World) (q : Query A)
    → ((db : Db) → IsReady w db → IsReady w (q (moment w db) (sent db)).1)
    → Keeps w (statement w q)
Keeps-statement w q h =
    Ensures-moment w q (sent-IsReady w) (λ _ db s. s) (λ db s. each (IsReady w) _ _ (h db s))

pub Keeps-quiet :
    {A : Type 0} (w : World) (q : Query A)
    → ((m : Moment) → IsQuiet (q m))
    → Keeps w (statement w q)
Keeps-quiet w q h =
    Keeps-statement w q
      λ db s. quiet-IsReady w (q (moment w db)) (sent db) (h (moment w db)) (sent-IsReady w db s)

pub Keeps-lift :
    {w : World} {A B : Type 0} (r : Result A) (f : A → Action B)
    → ((a : A) → Keeps w (f a))
    → Keeps w (lift r >>= f)
Keeps-lift r f h = Ensures-bind (lift r) f (Ensures-lift r (λ _ s. s) (λ _ _ s. s)) h

pub request_tick-Keeps : (w : World) → Keeps w request_tick
request_tick-Keeps w = record { at = λ db s. record { sound = s.sound; unused = s.unused } }
