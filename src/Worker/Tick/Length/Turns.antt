-- ===== src/Worker/Tick/Length/Turns.antt =====
-- The statements of the reaper and of the registration, and so of a whole tick.
use job_scheduler.Prelude.{
  ℕ, ◌+◌, ◌≤◌, ◌<◌, ◌≡◌, refl, ap, not, Option, none, some, List, arith, Distinct, Distinct-update,
  Memᴰ, select, mem-select, All_of_mem,
}
use job_scheduler.Db.{Db, Queue, Worker}
use job_scheduler.Db.Sql.{World, statement}
use job_scheduler.Db.Ensures.{Ensures, Ensures-counted, Ensures-bind, Ensures-pure, Ensures-after}
use job_scheduler.Worker.Registration.{
  ensure_worker, register, select_worker, upsert_heartbeat, activate_worker, insert_worker,
  insert_heartbeat, insert_heartbeat-same,
}
use job_scheduler.Worker.Reaper.{reaper, is_stale, reclaim}
use job_scheduler.Worker.Tick.{select_unpaused, run_worker_tick}
use job_scheduler.Worker.Tick.Length.{Sent, IsTame, Sent-mono, Sent-sent, sends, idle-IsTame, most}
use job_scheduler.Worker.Tick.Length.Queues.{run_queues-sends}

heartbeat-IsTame : (id : ℕ) → IsTame (insert_heartbeat id)
heartbeat-IsTame id =
    idle-IsTame (insert_heartbeat id)
      (λ m db. ap (λ (d : Db). d.queues) (insert_heartbeat-same id m db).1)
      (λ m db. ap (λ (d : Db). d.statements) (insert_heartbeat-same id m db).1)
      (λ m db. ap (λ (d : Db). d.jobs) (insert_heartbeat-same id m db).1)

registered-sends :
    (w : World) (queues : List Queue) (total n : ℕ) (row : Option Worker)
    → n + 2 ≤ total
    → Ensures (Sent queues total) (Sent queues n) (register w row) (λ _. Sent queues (n + 2))
unfolding upsert_heartbeat activate_worker insert_worker
registered-sends w queues total n none h =
    Ensures-bind _ _
      (sends queues total w insert_worker n (n + 1)
        (idle-IsTame insert_worker (λ m db. refl) (λ m db. refl) (λ m db. refl)) (omega arith)
        (omega arith))
      λ id.
        Ensures-bind _ _
          (sends queues total w (insert_heartbeat id) (n + 1) (n + 2) (heartbeat-IsTame id)
            (omega arith) h)
          (λ _. Ensures-pure id (λ db s. s))
registered-sends w queues total n (some row) h =
    Ensures-bind _ _
      (sends queues total w (upsert_heartbeat row.id) n (n + 1)
        (idle-IsTame (upsert_heartbeat row.id) (λ m db. refl) (λ m db. refl) (λ m db. refl))
        (omega arith) (omega arith))
      λ _.
        Ensures-bind _ _
          (sends queues total w (activate_worker row.id) (n + 1) (n + 2)
            (idle-IsTame (activate_worker row.id) (λ m db. refl) (λ m db. refl) (λ m db. refl))
            (omega arith) h)
          (λ _. Ensures-pure row.id (λ db s. s))

reaper-sends :
    (w : World) (queues : List Queue) (total n : ℕ)
    → n + 1 ≤ total
    → Ensures (Sent queues total) (Sent queues n) (reaper w) (λ _. Sent queues (n + 1))
unfolding reaper reclaim
reaper-sends w queues total n h =
    sends queues total w _ n (n + 1)
      (record {
        queues = λ m db. refl;
        statements = λ m db. refl;
        jobs = λ m db d.
            Distinct-update (λ j. j.id) (is_stale m.now) (reclaim m.now) db.jobs (λ j. refl) d;
      })
      (omega arith) h

abbrev unpaused : List Queue → List Queue
unpaused = select (λ q. not q.paused)

select_unpaused-sends :
    (w : World) (queues : List Queue) (total n k : ℕ)
    → n < k
    → k ≤ total
    → Ensures
        (Sent queues total)
        (Sent queues n)
        (statement w select_unpaused)
        (λ qs db. (qs ≡ unpaused queues) × Sent queues k db)
select_unpaused-sends w queues total n k h le =
    Ensures-counted w select_unpaused (λ db s. Sent-sent queues n k db h s)
      (λ db s. Sent-mono queues k total db le s) (λ _ db s. Sent-mono queues k total db le s.1)
      (λ m db s. (ap unpaused s.same_queues, s))

-- Where the ids of jobs and of queues are distinct, a tick ends, whatever fails, after at most five
-- statements, two for each queue that is not paused, and seven for each job that the limits of those
-- queues allow.
pub run_worker_tick-statements :
    (w : World) (db : Db)
    → Distinct (λ j. j.id) db.jobs
    → Distinct (λ q. q.id) db.queues
    → (run_worker_tick w db).1.statements
      ≤ db.statements + 5 + most (select (λ q. not q.paused) db.queues)
unfolding run_worker_tick ensure_worker
run_worker_tick-statements w db jobs queues =
    (Ensures-after (run_worker_tick w) db
      (Ensures-bind _ _ (reaper-sends w db.queues total n (omega arith)) λ _.
        Ensures-bind _ _
          (Ensures-bind _ _
            (sends db.queues total w select_worker (n + 1) (n + 2)
              (idle-IsTame select_worker (λ m d. refl) (λ m d. refl) (λ m d. refl)) (omega arith)
              (omega arith))
            (λ row. registered-sends w db.queues total (n + 2) row (omega arith)))
          λ worker_id.
            Ensures-bind _ _
              (select_unpaused-sends w db.queues total (n + 2 + 2) (n + 5) (omega arith)
                (omega arith))
              λ qs. record {
                at = λ d s.
                    (run_queues-sends w db.queues total worker_id 0 qs (n + 5) total queues
                        (rw s.0 (
                          All_of_mem (λ q. Memᴰ q db.queues) (unpaused db.queues)
                            (λ q m. (mem-select (λ q. not q.paused) db.queues m).0)))
                        (rw s.0 (omega arith)) (omega arith)).at
                      d s.1;
              })
      (record { same_queues = refl; different = jobs; count = omega arith })).count
  where
    n : ℕ
    n = db.statements

    total : ℕ
    total = db.statements + 5 + most (unpaused db.queues)
