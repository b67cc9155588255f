-- ===== src/Router/Stats.antt =====
-- `GET queues/:id/stats` of dashboard/src/server/router.ts. The quotients that JavaScript and
-- PostgreSQL compute as floats are pairs of their terms.
pub mod Bounds
use job_scheduler.Prelude.{
  ℕ, ◌+◌, ◌*◌, ℤ, pos, ◌+ℤ◌, String, Bool, true, false, Option, none, some, List, [], ◌∷◌, ◌==◌,
  ◌&&◌, leb, str_eq, if◌then◌else◌, select, select_one, count,
}
use job_scheduler.Db.{Db, Queue, Job, Execution, is_queued}
use job_scheduler.Db.Client.{Client, is_queue_in}
use job_scheduler.Db.Sql.{
  World, Moment, Result, ok, throws, Query, Action, statement, pure, lift, ◌>>=◌, ◌>>◌,
}
use job_scheduler.Http.{Response, Body, QueueStats, Ratio, json, error}
use job_scheduler.Router.Submit.{select_queue}

-- `COUNT(*) … WHERE queue_id = queueId AND status = 'queued'`
unfoldable pub select_depth : Client → String → Query ℕ
select_depth c queue m = do
  id ← lift (c.uuid_param queue)
  λ db. (ok (count (λ j. (j.queue_id == id) && is_queued j.status) db.jobs), db)

-- `finished_at >= NOW() - interval`, which NULL never meets.
abbrev pub is_since : ℕ → ℕ → Option ℕ → Bool
is_since interval now none = false
is_since interval now (some t) = leb now (t + interval)

abbrev pub hour : ℕ
hour = 3_600_000

abbrev pub day : ℕ
day = 24 * hour

-- `JOIN jobs j ON j.id = je.job_id WHERE j.queue_id = queueId`
unfoldable pub is_execution_of : ℕ → Db → Execution → Bool
is_execution_of queue_id db e = elim (select_one (λ j. j.id == e.job_id) db.jobs) [
  | none ↦ false
  | some j ↦ j.queue_id == queue_id
]

abbrev pub is_status : String → Execution → Bool
is_status status e = str_eq e.status status

-- `AVG(duration_ms)`: NULL durations do not count.
abbrev add_duration : Option ℤ → Ratio → Ratio
add_duration none r = r
add_duration (some d) r = record { numerator = r.numerator +ℤ d; denominator = r.denominator + 1 }

unfoldable pub sum_durations : List Execution → Ratio
sum_durations [] = record { numerator = pos 0; denominator = 0 }
sum_durations (e ∷ es) = add_duration e.duration_ms (sum_durations es)

-- `COALESCE(…, 0)`: the average over no row is NULL.
abbrev pub average : Ratio → Ratio
average r = if r.denominator == 0 then record { numerator = pos 0; denominator = 1 } else r

-- The row of the second statement.
pub record Counts : Type 0 where
  pub last_hour : ℕ
  pub last_day : ℕ
  pub completed : ℕ
  pub failed : ℕ
  pub avg_ms : Ratio

unfoldable pub counts_of : ℕ → List Execution → Counts
unfolding sum_durations
counts_of now rows = record {
  last_hour = count (λ e. is_status "completed" e && is_since hour now e.finished_at) rows;
  last_day = count (λ e. is_status "completed" e && is_since day now e.finished_at) rows;
  completed = count (is_status "completed") rows;
  failed = count (is_status "failed") rows;
  avg_ms = average (sum_durations (select (is_status "completed") rows));
}

unfoldable pub select_counts : Client → String → Query Counts
unfolding counts_of is_execution_of
select_counts c queue m = do
  id ← lift (c.uuid_param queue)
  λ db. (
    ok (
        counts_of m.now (
          select (λ e. is_execution_of id db e && is_since day m.now e.finished_at) db.executions)),
    db,
  )

-- `total ? completed / total : 1`
abbrev pub rate : ℕ → ℕ → Ratio
rate completed failed =
    if completed + failed == 0
    then record { numerator = pos 1; denominator = 1 }
    else record { numerator = pos completed; denominator = completed + failed }

abbrev pub stats_of : ℕ → Queue → ℕ → Counts → QueueStats
stats_of id q depth n = record {
  queue_id = id;
  queue_name = q.name;
  depth = depth;
  throughput_1h = n.last_hour;
  throughput_24h = n.last_day;
  success_rate = rate n.completed n.failed;
  avg_latency_ms = n.avg_ms;
  p95_latency_ms = n.avg_ms;
}

abbrev pub answer_stats : ℕ → Counts → Option Queue → Action Response
answer_stats depth n none = pure (error "not found" 404 "ERROR")
answer_stats depth n (some q) = pure (json (Body.stats (stats_of q.id q depth n)) 200)

unfoldable pub queue_stats : World → Client → String → String → Action Response
unfolding select_depth select_counts select_queue
queue_stats w c org queue = do
  depth ← statement w (select_depth c queue)
  n ← statement w (select_counts c queue)
  found ← statement w (select_queue c queue org)
  answer_stats depth n found
