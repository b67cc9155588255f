-- ===== src/Router/Stats/Bounds.antt =====
-- The figures of a queue: what each of them counts, and how they fit together.
use job_scheduler.Prelude.{
  ap, subst, refl, ◌∙◌, suc, ◌<◌, ◌==◌, inl, inr, Bool-cases, ℕ, ◌+◌, ◌≤◌, ◌≡◌, pos, ◌≤ℤ◌, Bool,
  true, false, List, [], ◌∷◌, ◌&&◌, leb, str_eq, count, select, select_one, arith, Option, none,
  some, String, eq_of_==,
}
use job_scheduler.Db.{Db, Execution, Job, Queue, is_queued}
use job_scheduler.Db.Client.{Client, is_queue_in}
use job_scheduler.Db.Sql.{World, Moment, ok, moment, sent, statement, and_then, Action, ◌>>=◌}
use job_scheduler.Db.Served.{ServedFrom, served-bind}
use job_scheduler.Http.{Response, Body, QueueStats, Ratio, json}
use job_scheduler.Router.Submit.{select_queue}
use job_scheduler.Router.Stats.{
  Counts, is_since, is_execution_of, is_status, hour, day, counts_of, rate, stats_of, select_depth,
  select_counts, answer_stats, queue_stats,
}

-- Did the execution end no more than this many milliseconds ago?
abbrev pub ended_within : ℕ → ℕ → Option ℕ → Bool
ended_within span now none = false
ended_within span now (some t) = leb now (t + span)

-- Is its job one of the queue?
abbrev pub runs_for : ℕ → List Job → Execution → Bool
runs_for id jobs e = elim (select_one (λ j. j.id == e.job_id) jobs) [
  | none ↦ false
  | some j ↦ j.queue_id == id
]

-- How many executions of the queue ended with this status within this many milliseconds.
abbrev pub ended : String → ℕ → ℕ → ℕ → Db → ℕ
ended status span now id db =
    count
      (λ e. runs_for id db.jobs e && str_eq e.status status && ended_within span now e.finished_at)
      db.executions

-- The share of the completed ones, and one where nothing ended.
pub data IsRate (completed failed : ℕ) (r : Ratio) : Type 0 where
  nothing_ended :
      completed + failed ≡ 0
      → r ≡ record { numerator = pos 1; denominator = 1 }
      → IsRate completed failed r
  share :
      0 < completed + failed
      → r ≡ record { numerator = pos completed; denominator = completed + failed }
      → IsRate completed failed r

pub record IsReport (now id : ℕ) (q : Queue) (db : Db) (v : QueueStats) : Type 0 where
  pub name : v.queue_name ≡ q.name
  pub waiting : v.depth ≡ count (λ j. (j.queue_id == id) && is_queued j.status) db.jobs
  pub last_hour : v.throughput_1h ≡ ended "completed" 3_600_000 now id db
  pub last_day : v.throughput_24h ≡ ended "completed" 86_400_000 now id db
  pub ordered : v.throughput_1h ≤ v.throughput_24h
  pub success :
      IsRate
        (ended "completed" 86_400_000 now id db)
        (ended "failed" 86_400_000 now id db)
        v.success_rate
  pub at_least_none : pos 0 ≤ℤ v.success_rate.numerator
  pub at_most_all : v.success_rate.numerator ≤ℤ pos v.success_rate.denominator

count-select :
    (p r s : Execution → Bool) (es : List Execution)
    → ((e : Execution) → (p e && r e) ≡ s e)
    → count r (select p es) ≡ count s es
count-select p r s [] h = refl
count-select p r s (e ∷ es) h = ground (arith, h e, count-select p r s es h)

count_le_of_imp :
    (p q : Execution → Bool) (es : List Execution)
    → ((e : Execution) → p e ≡ true → q e ≡ true)
    → count p es ≤ count q es
count_le_of_imp p q [] h = omega arith
count_le_of_imp p q (e ∷ es) h = ground (arith, h e, count_le_of_imp p q es h)

hour_in_day : (now : ℕ) (t : Option ℕ) → is_since hour now t ≡ true → is_since day now t ≡ true
hour_in_day now none h = cc
hour_in_day now (some t) h = ground arith

module _ (now id : ℕ) (db : Db) where
  -- The rows that the statement reads.
  abbrev recent_rows : List Execution
  recent_rows =
      select (λ e. is_execution_of id db e && is_since day now e.finished_at) db.executions

  count_hour :
      count (λ e. is_status "completed" e && is_since hour now e.finished_at) recent_rows
      ≡ ended "completed" 3_600_000 now id db
  unfolding is_execution_of
  count_hour = count-select _ _ _ db.executions λ e. ground (arith, hour_in_day now e.finished_at)

  count_day :
      count (λ e. is_status "completed" e && is_since day now e.finished_at) recent_rows
      ≡ ended "completed" 86_400_000 now id db
  unfolding is_execution_of
  count_day = count-select _ _ _ db.executions λ e. ground arith

  count_status :
      (status : String) → count (is_status status) recent_rows ≡ ended status 86_400_000 now id db
  unfolding is_execution_of
  count_status status = count-select _ _ _ db.executions λ e. ground arith

rate-IsRate : (completed failed : ℕ) → IsRate completed failed (rate completed failed)
rate-IsRate completed failed = elim (Bool-cases (completed + failed == 0)) [
  | inl e ↦ rw e (nothing_ended (eq_of_== (completed + failed) 0 e) refl)
  | inr e ↦ rw e (share (ground arith) refl)
]

rate_between :
    (completed failed : ℕ)
    → (pos 0 ≤ℤ (rate completed failed).numerator)
      × ((rate completed failed).numerator ≤ℤ pos (rate completed failed).denominator)
rate_between completed failed = elim (Bool-cases (completed + failed == 0)) [
  | inl e ↦ rw e (omega arith, omega arith)
  | inr e ↦ rw e (omega arith, omega arith)
]

abbrev waiting_in : ℕ → Db → ℕ
waiting_in id db = count (λ j. (j.queue_id == id) && is_queued j.status) db.jobs

stats_of-IsReport :
    (now id : ℕ) (q : Queue) (db : Db)
    → IsReport now id q db
        (stats_of q.id q (waiting_in id db) (counts_of now (recent_rows now id db)))
unfolding counts_of
stats_of-IsReport now id q db =
    let completed = count (is_status "completed") (recent_rows now id db) in
    let failed = count (is_status "failed") (recent_rows now id db) in
    record {
      name = refl;
      waiting = refl;
      last_hour = count_hour now id db;
      last_day = count_day now id db;
      ordered =
          count_le_of_imp _ _ (recent_rows now id db)
            (λ e. ground (arith, hour_in_day now e.finished_at));
      success =
          subst (λ c. IsRate c (ended "failed" 86_400_000 now id db) (rate completed failed))
            (count_status now id db "completed")
            (subst (λ f. IsRate completed f (rate completed failed))
              (count_status now id db "failed") (rate-IsRate completed failed));
      at_least_none = (rate_between completed failed).0;
      at_most_all = (rate_between completed failed).1;
    }

module _ (c : Client) (m : Moment) (db : Db) (org queue : String) (id org_id : ℕ) (q : Queue)
    (hq : c.uuid_param queue ≡ ok id) (ho : c.uuid_param org ≡ ok org_id) where
  select_depth-eq : select_depth c queue m db ≡ (ok (waiting_in id db), db)
  unfolding select_depth
  select_depth-eq = rw hq refl

  select_counts-eq :
      select_counts c queue m db ≡ (ok (counts_of m.now (recent_rows m.now id db)), db)
  unfolding select_counts
  select_counts-eq = rw hq refl

  select_queue-eq :
      select_one (λ r. (r.id == id) && is_queue_in org_id db r) db.queues ≡ some q
      → select_queue c queue org m db ≡ (ok (some q), db)
  unfolding select_queue
  select_queue-eq found = rw (hq, ho, found) refl

-- If its three statements are served and the queue is one of the caller's organization, the answer
-- is 200 with the queue's name, the number of its queued jobs, the numbers of its executions that
-- completed within the last hour and within the last day, and the share of the completed among those
-- that completed or failed within the last day, which is one if there are none; the share is between
-- zero and one, the number of the hour is at most that of the day, and no table changes.
pub queue_stats-IsReport :
    (w : World) (c : Client) (db : Db) (org queue : String) (id org_id : ℕ) (q : Queue)
    → ServedFrom w db.statements 3
    → c.uuid_param queue ≡ ok id
    → c.uuid_param org ≡ ok org_id
    → select_one (λ r. (r.id == id) && is_queue_in org_id db r) db.queues ≡ some q
    → (v : QueueStats) × (queue_stats w c org queue db
        ≡ (ok (json (Body.stats v) 200), sent (sent (sent db))))
      × IsReport (w.clock (suc db.statements)) id q db v
unfolding queue_stats select_depth select_counts select_queue is_queue_in
queue_stats-IsReport w c db org queue id org_id q (s0, (s1, (s2, _))) hq ho found = (
  stats_of q.id q depth n,
  served-bind w (select_depth c queue) rest db s0
      ∙ ap (λ r. and_then r.0 rest r.1)
          (select_depth-eq c (moment w db) (sent db) org queue id org_id q hq ho)
      ∙ served-bind w (select_counts c queue) (last depth) (sent db) s1
      ∙ ap (λ r. and_then r.0 (last depth) r.1)
          (select_counts-eq c (moment w (sent db)) (sent (sent db)) org queue id org_id q hq ho)
      ∙ served-bind w (select_queue c queue org) (answer_stats depth n) (sent (sent db)) s2
      ∙ ap (λ r. and_then r.0 (answer_stats depth n) r.1)
          (select_queue-eq c (moment w (sent (sent db))) (sent (sent (sent db))) org queue id org_id
            q hq ho found),
  stats_of-IsReport (w.clock (suc db.statements)) id q db,
)
  where
    depth : ℕ
    depth = waiting_in id db

    n : Counts
    n = counts_of (w.clock (suc db.statements)) (recent_rows (w.clock (suc db.statements)) id db)

    last : ℕ → Counts → Action Response
    last d k = statement w (select_queue c queue org) >>= answer_stats d k

    rest : ℕ → Action Response
    rest d = statement w (select_counts c queue) >>= last d
