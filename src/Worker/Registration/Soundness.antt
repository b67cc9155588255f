-- ===== src/Worker/Registration/Soundness.antt =====
-- A registration keeps the tables sound, whatever fails on the way.
use job_scheduler.Prelude.{
  ℕ, ◌≡◌, refl, inl, inr, Option, none, some, List, [], ◌∷◌, ◌++◌, Distinct, select_one,
  Option-cases, Distinct-update, Distinct-append, absent_of_select_one,
}
use job_scheduler.Db.{Db, Worker, Heartbeat}
use job_scheduler.Db.Sql.{World, Moment}
use job_scheduler.Db.Ensures.{Ensures, Ensures-keeps, Ensures-bind, Ensures-pure}
use job_scheduler.Worker.Invariant.{IsSoundTables, IsSound}
use job_scheduler.Worker.Registration.{
  select_worker, beats, touch, heartbeat, upsert_heartbeat, insert_heartbeat, activate_worker,
  insert_worker, register, ensure_worker,
}

beat-IsSound :
    (db : Db) (hs : List Heartbeat)
    → Distinct (λ h. h.worker_id) hs
    → IsSound db
    → IsSoundTables [] db.jobs hs db.dead_letters
beat-IsSound db hs d s = record {
  job_ids = s.job_ids;
  rows = s.rows;
  one_heartbeat = d;
  one_dead_letter = s.one_dead_letter;
}

snoc-Distinct :
    (id : ℕ) (m : Moment) (hs : List Heartbeat)
    → select_one (beats id) hs ≡ none
    → Distinct (λ h. h.worker_id) hs
    → Distinct (λ h. h.worker_id) (hs ++ heartbeat m id ∷ [])
snoc-Distinct id m hs e =
    Distinct-append (λ h. h.worker_id) (heartbeat m id) hs
      (absent_of_select_one (λ h. h.worker_id) id hs e)

upsert-IsSound : (id : ℕ) (m : Moment) (db : Db) → IsSound db → IsSound (upsert_heartbeat id m db).1
unfolding upsert_heartbeat
upsert-IsSound id m db s = elim (Option-cases (select_one (beats id) db.heartbeats)) [
  | inl e ↦
      rw (e, upsert_heartbeat)
        (beat-IsSound db _ (snoc-Distinct id m db.heartbeats e s.one_heartbeat) s)
  | inr (h, e) ↦
      rw (e, upsert_heartbeat)
        (beat-IsSound db _
          (Distinct-update (λ h. h.worker_id) (beats id) (touch m.now) db.heartbeats (λ x. refl)
            s.one_heartbeat)
          s)
]

insert-IsSound : (id : ℕ) (m : Moment) (db : Db) → IsSound db → IsSound (insert_heartbeat id m db).1
unfolding insert_heartbeat
insert-IsSound id m db s = elim (Option-cases (select_one (beats id) db.heartbeats)) [
  | inl e ↦
      rw (e, insert_heartbeat)
        (beat-IsSound db _ (snoc-Distinct id m db.heartbeats e s.one_heartbeat) s)
  | inr (h, e) ↦ rw (e, insert_heartbeat) s
]

register-IsSound :
    (w : World) (row : Option Worker) → Ensures IsSound IsSound (register w row) (λ _. IsSound)
unfolding activate_worker insert_worker
register-IsSound w none =
    Ensures-bind _ _ (Ensures-keeps w insert_worker (λ db s. s) (λ m db s. s)) λ id.
      Ensures-bind _ _ (Ensures-keeps w (insert_heartbeat id) (λ db s. s) (insert-IsSound id))
        (λ _. Ensures-pure id (λ db s. s))
register-IsSound w (some row) =
    Ensures-bind _ _ (Ensures-keeps w (upsert_heartbeat row.id) (λ db s. s) (upsert-IsSound row.id))
      λ _.
        Ensures-bind _ _ (Ensures-keeps w (activate_worker row.id) (λ db s. s) (λ m db s. s))
          (λ _. Ensures-pure row.id (λ db s. s))

pub ensure_worker-IsSound : (w : World) → Ensures IsSound IsSound (ensure_worker w) (λ _. IsSound)
unfolding ensure_worker
ensure_worker-IsSound w =
    Ensures-bind _ _ (Ensures-keeps w select_worker (λ db s. s) (λ m db s. s)) (register-IsSound w)
