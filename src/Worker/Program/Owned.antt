-- ===== src/Worker/Program/Owned.antt =====
-- What a tick may rely on and what it guarantees while others send statements between its own: the
-- jobs that it has claimed are its own until it settles them or their lease runs out.
use mathlib.Core.List.Memᴰ
use job_scheduler.Prelude.{
  contains-map_of_mem, mem_of_contains-map, ℕ, ◌+◌, ◌*◌, ◌≤◌, ◌≡◌, sym, subst, true, false, some,
  List, ℤ, All, All-mem, All_of_mem, Distinct, Memᴰ, contains, arith,
}
use job_scheduler.Db.{Db, Job, is_in_flight}
use job_scheduler.Db.Sql.{Moment, Result, ok}
use job_scheduler.Worker.Reaper.{is_stale}
use job_scheduler.Worker.Claim.{lease_seconds}
use job_scheduler.Worker.Claim.Chosen.{ids}
use job_scheduler.Worker.Lifecycle.{Rows, Rows-mem, Moved}
use job_scheduler.Worker.Program.{Program, done, fails, query, measure, ◌>>=◌}

-- One statement of a tick that held some rows and then holds others: every row makes one move at
-- most, and a job in flight that is not the tick's, and whose lease has not run out, is left alone.
pub record Guarantee (held held' : List Job) (now : ℕ) (x y : Job) : Type 0 where
  pub move : Moved x y
  pub spares :
      contains (ids held) x.id ≡ false
      → is_in_flight x.status ≡ true
      → is_stale now x ≡ false
      → (y ≡ x) × (contains (ids held') x.id ≡ false)

-- No job is held by both.
abbrev pub Apart : List Job → List Job → Type 0
Apart held other = (k : ℕ) → contains (ids other) k ≡ true → contains (ids held) k ≡ false

module _ (since : ℕ) where
  -- A row in flight with a lease that was given no earlier than `since`.
  pub record IsLive (j : Job) : Type 0 where
    pub in_flight : is_in_flight j.status ≡ true
    pub until : ℕ
    pub lease : j.lease_expires_at ≡ some until
    pub long : since + lease_seconds * 1000 ≤ until

  -- The rows that a tick holds are in the table as it knows them.
  pub record IsOwned (held jobs : List Job) : Type 0 where
    pub present : All (λ k. Memᴰ k jobs) held
    pub live : All IsLive held
    pub different : Distinct (λ k. k.id) held

  -- What a statement did, for a tick that held `held`.
  pub record Keeps {B : Type 0} (held : List Job) (now : ℕ) (jobs : List Job) (r : Result B × Db)
      (Q : B → List Job → Type 0) : Type 0 where
    pub held' : List Job
    pub rows : Rows (Guarantee held held' now) jobs (r.1).jobs
    pub owned : IsOwned held' (r.1).jobs
    pub answer : (b : B) → r.0 ≡ ok b → Q b held'

  module _ {A : Type 0} where
    -- Every statement of the program keeps the guarantee, from any tables that have the rows held.
    unfoldable pub Safe : (A → List Job → Type 0) → List Job → Program A → Type 0
    Safe Q held (done a) = Q a held
    Safe Q held (fails s) = Unit
    Safe Q held (query q k) =
        (m : Moment) (db : Db)
        → since ≤ m.now
        → Distinct (λ j. j.id) db.jobs
        → IsOwned held db.jobs
        → Keeps held m.now db.jobs (q m db) (λ b held'. Safe Q held' (k b))
    Safe Q held (measure k) = (n : ℤ) → Safe Q held (k n)

  pub Safe-bind :
      {A B : Type 0} (Q : A → List Job → Type 0) (R : B → List Job → Type 0) (held : List Job)
      (p : Program A) (f : A → Program B)
      → Safe Q held p
      → ((a : A) (h : List Job) → Q a h → Safe R h (f a))
      → Safe R held (p >>= f)
  unfolding Safe
  Safe-bind Q R held (done a) f s g = g a held s
  Safe-bind Q R held (fails e) f s g = tt
  Safe-bind Q R held (query q k) f s g = λ m db late d o.
      let kept = s m db late d o in
      record {
        held' = kept.held';
        rows = kept.rows;
        owned = kept.owned;
        answer = λ b e. Safe-bind Q R kept.held' (k b) f (kept.answer b e) g;
      }
  Safe-bind Q R held (measure k) f s g = λ n. Safe-bind Q R held (k n) f (s n) g

  not_stale :
      (now : ℕ) (j : Job) → now ≤ since + lease_seconds * 1000 → IsLive j → is_stale now j ≡ false
  unfolding is_stale
  not_stale now j h l = rw (l.lease, is_stale) (ground (arith, l.long))

  -- What a statement of one tick leaves to another that holds other jobs.
  module _ (held held' other : List Job) (now : ℕ) (jobs jobs' : List Job)
      (h : now ≤ since + lease_seconds * 1000) (rows : Rows (Guarantee held held' now) jobs jobs')
      (apart : Apart held other) (o : IsOwned other jobs) where
    other_row : (k : Job) → Memᴰ k other → Memᴰ k jobs' × (contains (ids held') k.id ≡ false)
    other_row k m =
        let live = All-mem IsLive other o.live m in
        let there = All-mem (λ j. Memᴰ j jobs) other o.present m in
        let (y, n, g) = Rows-mem (Guarantee held held' now) jobs jobs' rows there in
        let (same, out) =
          g.spares (apart k.id (contains-map_of_mem (λ j. j.id) other m)) live.in_flight
            (not_stale now k h live) in
        (Memᴰ.cast (sym same) n, out)

    pub others_kept : IsOwned other jobs'
    others_kept = record {
      present = All_of_mem (λ k. Memᴰ k jobs') other (λ k m. (other_row k m).0);
      live = o.live;
      different = o.different;
    }

    pub others-Apart : Apart held' other
    others-Apart k c =
        let (x, m, q) = mem_of_contains-map (λ j. j.id) k other c in
        subst (λ i. contains (ids held') i ≡ false) q (other_row x m).1
