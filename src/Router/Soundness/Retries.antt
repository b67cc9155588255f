-- ===== src/Router/Soundness/Retries.antt =====
-- `POST jobs/:id/retry` of dashboard/src/server/router.ts on sound tables.
use job_scheduler.Prelude.{
  ℕ, ◌≡◌, refl, String, Option, none, some, [], Distinct-select, All-update_key, ◌==◌, not,
}
use job_scheduler.Db.{Db, Job}
use job_scheduler.Db.Client.{Client}
use job_scheduler.Db.Sql.{World, sent, Result, ok, throws, Action, statement, lift, ◌>>=◌}
use job_scheduler.Db.Ensures.{Ensures-bind, Ensures-pure}
use job_scheduler.Worker.Invariant.{IsSoundRow, update-IsSoundHeld}
use job_scheduler.Http.{Body, json, map_job}
use job_scheduler.Router.{request_tick}
use job_scheduler.Router.Retry.{
  delete_dead_letter, find_job, reset_found, reset_job, reset, retry_job, answer_retry,
}
use job_scheduler.Router.Soundness.{
  IsReady, Keeps, Keeps-statement, Keeps-lift, sent-IsReady, request_tick-Keeps,
}

IsReady-lift :
    {A B : Type 0} (w : World) (r : Result A) (f : A → Action B) (db : Db)
    → ((a : A) → IsReady w (f a db).1)
    → IsReady w db
    → IsReady w ((lift r >>= f) db).1
IsReady-lift w (ok a) f db h s = h a
IsReady-lift w (throws e) f db h s = s

delete_dead_letter-Keeps :
    (w : World) (c : Client) (job : String) → Keeps w (statement w (delete_dead_letter c job))
unfolding delete_dead_letter
delete_dead_letter-Keeps w c job = Keeps-statement w (delete_dead_letter c job) λ db s.
    let s' = sent-IsReady w db s in
    IsReady-lift w (c.uuid_param job) _ (sent db)
      (λ id. record {
        sound = record {
          job_ids = s.sound.job_ids;
          rows = s.sound.rows;
          one_heartbeat = s.sound.one_heartbeat;
          one_dead_letter =
              Distinct-select (λ d. d.job_id) (λ d. not (d.job_id == id)) db.dead_letters
                s.sound.one_dead_letter;
        };
        unused = s'.unused;
      })
      s'

-- A job that is reset is queued and has neither a worker nor a lease, whatever it was.
reset-IsSoundRow : (now : ℕ) (j : Job) → IsSoundRow [] (reset now j)
unfolding reset
reset-IsSoundRow now j = record { worker = refl; lease = refl; in_flight = λ c. cc }

reset-id : (now : ℕ) (j : Job) → (reset now j).id ≡ j.id
unfolding reset
reset-id now j = refl

reset_found-IsReady :
    (w : World) (now id : ℕ) (db : Db) (found : Option Job)
    → IsReady w db
    → IsReady w (reset_found now id db found)
reset_found-IsReady w now id db none s = s
reset_found-IsReady w now id db (some _) s = record {
  sound =
      update-IsSoundHeld [] [] (λ j. j.id == id) (reset now) db (reset-id now)
        (λ j _ _. reset-IsSoundRow now j) (λ j _ r. r) s.sound;
  unused = λ n h.
      All-update_key (λ j. j.id) (w.uuid n) (λ j. j.id == id) (reset now) db.jobs (reset-id now)
        (s.unused n h);
}

reset_job-Keeps :
    (w : World) (c : Client) (job org : String) → Keeps w (statement w (reset_job c job org))
unfolding reset_job
reset_job-Keeps w c job org = Keeps-statement w (reset_job c job org) λ db s.
    let s' = sent-IsReady w db s in
    IsReady-lift w (c.uuid_param job) _ (sent db)
      (λ id.
        IsReady-lift w (c.uuid_param org) _ (sent db)
          (λ org_id.
            reset_found-IsReady w (w.clock db.statements) id (sent db)
              (find_job id org_id (sent db)) s')
          s')
      s'

answer_retry-Keeps : (w : World) (row : Option Job) → Keeps w (answer_retry w row)
answer_retry-Keeps w none = Ensures-pure _ (λ _ s. s)
answer_retry-Keeps w (some row) =
    Ensures-bind request_tick _ (request_tick-Keeps w)
      λ _. Keeps-lift (map_job w.js row) _ (λ v. Ensures-pure (json (Body.job v) 200) (λ _ s. s))

pub retry_job-Keeps : (w : World) (c : Client) (org job : String) → Keeps w (retry_job w c org job)
unfolding retry_job
retry_job-Keeps w c org job =
    Ensures-bind _ _ (delete_dead_letter-Keeps w c job)
      (λ _. Ensures-bind _ _ (reset_job-Keeps w c job org) (answer_retry-Keeps w))
