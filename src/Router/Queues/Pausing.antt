-- ===== src/Router/Queues/Pausing.antt =====
-- A pause, as the worker's next tick sees it.
use job_scheduler.Prelude.{
  ℕ, ◌≡◌, refl, ap, ◌∙◌, String, Bool, true, not, List, [], ◌∷◌, ◌&&◌, ◌==◌, select, update, arith,
}
use job_scheduler.Db.{Db, Queue}
use job_scheduler.Db.Client.{Client, is_queue_in}
use job_scheduler.Db.Sql.{World, Moment, ok, moment, sent, and_then, pure}
use job_scheduler.Db.Served.{ServedFrom, served-bind}
use job_scheduler.Http.{Body, json}
use job_scheduler.Worker.Tick.{select_unpaused}
use job_scheduler.Router.Queues.{set_paused, is_addressed, update_paused, pause_queue}

update_paused-eq :
    (c : Client) (queue org : String) (id org_id : ℕ) (m : Moment) (db : Db)
    → c.uuid_param queue ≡ ok id
    → c.uuid_param org ≡ ok org_id
    → update_paused true c queue org m db ≡ (
      ok tt,
      record db { queues = update (is_addressed id org_id db) (set_paused true m.now) db.queues },
    )
unfolding update_paused
update_paused-eq c queue org id org_id m db hq ho = rw (hq, ho) refl

select-unpaused :
    (p : Queue → Bool) (now : ℕ) (qs : List Queue)
    → select (λ q. not q.paused) (update p (set_paused true now) qs)
      ≡ select (λ q. not q.paused && not (p q)) qs
unfolding set_paused
select-unpaused p now [] = refl
select-unpaused p now (q ∷ qs) = ground (arith, select-unpaused p now qs)

-- If its statement is served, a pause answers 204, also where the queue is missing or is not one of
-- the caller's organization; the worker then finds the queues to run that it found before, but the
-- queue of that id in the caller's organization; and that queue is the only one that changes, which
-- is now paused.
pub pause_hides :
    (w : World) (c : Client) (db : Db) (org queue : String) (id org_id : ℕ) (m : Moment)
    → ServedFrom w db.statements 1
    → c.uuid_param queue ≡ ok id
    → c.uuid_param org ≡ ok org_id
    → let after = pause_queue w c org queue db in
      (after.0 ≡ ok (json Body.nothing 204))
      × ((select_unpaused m after.1).0
          ≡ ok (select (λ q. not q.paused && not (is_addressed id org_id db q)) db.queues))
      × (after.1.queues
          ≡ update
              (λ q. (q.id == id) && is_queue_in org_id db q)
              (λ q. record q { paused = true; updated_at = w.clock db.statements })
              db.queues)
unfolding pause_queue is_addressed is_queue_in set_paused
pause_hides w c db org queue id org_id m hs hq ho =
    rw
      (served-bind w (update_paused true c queue org) (λ _. pure (json Body.nothing 204)) db hs.0
        ∙ ap (λ r. and_then r.0 (λ _. pure (json Body.nothing 204)) r.1)
            (update_paused-eq c queue org id org_id (moment w db) (sent db) hq ho))
      (refl, ap ok (select-unpaused (is_addressed id org_id db) (moment w db).now db.queues), refl)
