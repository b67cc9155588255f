-- ===== src/Worker/Registration/Alive.antt =====
-- The worker is registered once, and a registration that returns leaves it active with a heartbeat.
use mathlib.Core.List.Memᴰ
use job_scheduler.Prelude.{
  ℕ, suc, ◌+◌, ◌≤◌, max, ◌<◌, ◌≡◌, ◌≢◌, refl, sym, subst, ◌∙◌, inl, inr, Bool, Option, none, some,
  List, [], ◌∷◌, ◌++◌, Memᴰ, arith, All, count, update, select_one, str_eq, str_eq_iff, ◌==◌,
  ==_refl, Option-cases, mem-update, mem_of_select_one,
}
use job_scheduler.Db.{Db, Worker, active, Heartbeat}
use job_scheduler.Db.Sql.{World, Moment, moment, sent, Result, ok, pure}
use job_scheduler.Db.Served.{served-bind, ServedFrom}
use job_scheduler.Db.Ensures.{
  Ensures, Ensures-statement, Ensures-bind, Ensures-pure, Ensures-keeps, Ensures-after,
}
use job_scheduler.Worker.Registration.{
  worker_name, select_worker, upsert_heartbeat, insert_heartbeat, activate_worker, insert_worker,
  register, ensure_worker, heartbeat, beats, touch, activate, new_worker,
}

abbrev pub is_ours : Worker → Bool
is_ours w = str_eq w.name worker_name

count_zero : (xs : List Worker) → select_one is_ours xs ≡ none → count is_ours xs ≡ 0
count_zero [] e = refl
count_zero (x ∷ xs) e = ground (arith, count_zero xs)

count-append : (xs : List Worker) (y : Worker) → count is_ours (xs ++ y ∷ []) ≤ count is_ours xs + 1
count-append [] y = ground arith
count-append (x ∷ xs) y = ground (arith, count-append xs y)

count-activate :
    (id : ℕ) (m : Moment) (xs : List Worker)
    → count is_ours (update (λ w. w.id == id) (activate m.now) xs) ≡ count is_ours xs
count-activate id m [] = refl
count-activate id m (x ∷ xs) = ground (arith, count-activate id m xs)

abbrev pub AtMost : ℕ → Db → Type 0
AtMost n db = count is_ours db.workers ≤ n

-- What `ensureWorker` knows after its SELECT.
abbrev Selected : ℕ → Option Worker → Db → Type 0
Selected n (some row) db = count is_ours db.workers ≤ max 1 n
Selected n none db = count is_ours db.workers ≡ 0

selection_bound :
    (n : ℕ) (db : Db)
    → count is_ours db.workers ≤ max 1 n
    → Selected n (select_one is_ours db.workers) db
selection_bound n db h = elim (Option-cases (select_one is_ours db.workers)) [
  | inl e ↦ rw e (count_zero db.workers e)
  | inr (row, e) ↦ rw e h
]

Selected-AtMost : (n : ℕ) (row : Option Worker) (db : Db) → Selected n row db → AtMost (max 1 n) db
Selected-AtMost n none db h = omega (arith, h)
Selected-AtMost n (some row) db h = h

register-AtMost :
    (w : World) (n : ℕ) (row : Option Worker)
    → Ensures (AtMost (max 1 n)) (Selected n row) (register w row) (λ _. AtMost (max 1 n))
unfolding insert_worker insert_heartbeat upsert_heartbeat activate_worker
register-AtMost w n none =
    Ensures-bind _ _
      (Ensures-statement w insert_worker (λ db h. h) (λ db h. omega (arith, h)) (λ _ db h. h)
        (λ m db h. omega (arith, h, count-append db.workers _)))
      λ id.
        Ensures-bind _ _
          (Ensures-keeps w (insert_heartbeat id) (λ db h. h) (λ m db h. ground arith))
          (λ _. Ensures-pure id (λ db h. h))
register-AtMost w n (some row) =
    Ensures-bind _ _ (Ensures-keeps w (upsert_heartbeat row.id) (λ db h. h) (λ m db h. h)) λ _.
      Ensures-bind _ _
        (Ensures-keeps w (activate_worker row.id) (λ db h. h)
          (λ m db h. rw (count-activate row.id m db.workers) h))
        (λ _. Ensures-pure row.id (λ db h. h))

-- Whatever fails on the way, a registration adds no second worker of the worker's name.
pub ensure_worker_once :
    (w : World) (db : Db)
    → count is_ours (ensure_worker w db).1.workers ≤ max 1 (count is_ours db.workers)
unfolding ensure_worker
ensure_worker_once w db =
    let n : ℕ = count is_ours db.workers in
    Ensures-after (ensure_worker w) db
      (Ensures-bind _ _
        (Ensures-statement {P = AtMost (max 1 n)} {Q = Selected n} w select_worker (λ db' h. h)
          (λ db' h. h) (Selected-AtMost n) (λ m db' h. selection_bound n db' h))
        (register-AtMost w n))
      (omega arith)

-- A worker of the worker's name with this id is active, and was seen at this time.
pub record IsAlive (id seen : ℕ) (db : Db) : Type 0 where
  pub row : Worker
  pub listed : Memᴰ row db.workers
  pub row_id : row.id ≡ id
  pub named : row.name ≡ worker_name
  pub working : row.status ≡ active
  pub beat : Heartbeat
  pub kept : Memᴰ beat db.heartbeats
  pub of_worker : beat.worker_id ≡ id
  pub seen_at : beat.last_seen_at ≡ seen

-- The heartbeat that an upsert leaves.
upsert-beat :
    (id : ℕ) (m : Moment) (db : Db)
    → (h : Heartbeat) × Memᴰ h (upsert_heartbeat id m db).1.heartbeats
      × (h.worker_id ≡ id)
      × (h.last_seen_at ≡ m.now)
unfolding upsert_heartbeat
upsert-beat id m db = elim (Option-cases (select_one (beats id) db.heartbeats)) [
  | inl e ↦ (
    heartbeat m id,
    rw (e, upsert_heartbeat) (Memᴰ.append_right db.heartbeats (Memᴰ.head refl)),
    refl,
    refl,
  )
  | inr (h, e) ↦
      let (mem, p) = mem_of_select_one (beats id) db.heartbeats e in
      (
        touch m.now h,
        rw (e, upsert_heartbeat) (mem-update (beats id) (touch m.now) db.heartbeats mem p),
        ground arith,
        refl,
      )
]

register_new :
    (w : World) (db : Db)
    → ServedFrom w db.statements 2
    → select_one (beats (w.uuid db.statements)) db.heartbeats ≡ none
    → let first = moment w db in
      let second = moment w (sent db) in
      register w none db ≡ (
        ok first.fresh,
        record (sent (sent db)) {
          workers = db.workers ++ new_worker first ∷ [];
          heartbeats = db.heartbeats ++ heartbeat second first.fresh ∷ [];
        },
      )
unfolding insert_worker insert_heartbeat
register_new w db (s0, (s1, _)) e =
    served-bind w insert_worker _ db s0
    ∙ served-bind w (insert_heartbeat (w.uuid db.statements)) (λ _. pure (w.uuid db.statements))
        (insert_worker (moment w db) (sent db)).1 s1
    ∙ rw (e, insert_heartbeat) refl

register_known :
    (w : World) (row : Worker) (db : Db)
    → ServedFrom w db.statements 2
    → let first = moment w db in
      let second = moment w (sent db) in
      register w (some row) db ≡ (
        ok row.id,
        record (sent (upsert_heartbeat row.id first (sent db)).1) {
          workers = update (λ v. v.id == row.id) (activate second.now) db.workers;
        },
      )
unfolding upsert_heartbeat activate_worker
register_known w row db (s0, (s1, _)) =
    served-bind w (upsert_heartbeat row.id) _ db s0
    ∙ served-bind w (activate_worker row.id) (λ _. pure row.id)
        (upsert_heartbeat row.id (moment w db) (sent db)).1 s1

-- The answer is the id of a worker that is alive, seen by one of the statements after the first.
pub record Registers (w : World) (first : ℕ) (answer : Result ℕ × Db) : Type 0 where
  pub id : ℕ
  pub answered : answer.0 ≡ ok id
  pub at : ℕ
  pub after_first : first < at
  pub alive : IsAlive id (w.clock at) answer.1

none_of_absent :
    (id : ℕ) (hs : List Heartbeat)
    → All (λ h. h.worker_id ≢ id) hs
    → select_one (beats id) hs ≡ none
none_of_absent id [] a = refl
none_of_absent id (h ∷ hs) a = ground (arith, none_of_absent id hs a.1)

new-Registers :
    (w : World) (first : ℕ) (db : Db)
    → first < db.statements
    → ServedFrom w db.statements 2
    → All (λ h. h.worker_id ≢ w.uuid db.statements) db.heartbeats
    → Registers w first (register w none db)
new-Registers w first db lt s fresh =
    let id : ℕ = w.uuid db.statements in
    subst (Registers w first) (sym (register_new w db s (none_of_absent id db.heartbeats fresh)))
      (record {
        id = id;
        answered = refl;
        at = suc db.statements;
        after_first = omega arith;
        alive = record {
          row = new_worker (moment w db);
          listed = Memᴰ.append_right db.workers (Memᴰ.head refl);
          row_id = refl;
          named = refl;
          working = refl;
          beat = heartbeat (moment w (sent db)) id;
          kept = Memᴰ.append_right db.heartbeats (Memᴰ.head refl);
          of_worker = refl;
          seen_at = refl;
        };
      })

known-Registers :
    (w : World) (first : ℕ) (db : Db) (row : Worker)
    → first < db.statements
    → ServedFrom w db.statements 2
    → select_one is_ours db.workers ≡ some row
    → Registers w first (register w (some row) db)
known-Registers w first db row lt s e =
    let (listed, ours) = mem_of_select_one is_ours db.workers e in
    let (beat, kept, whose, when) = upsert-beat row.id (moment w db) (sent db) in
    subst (Registers w first) (sym (register_known w row db s)) (record {
      id = row.id;
      answered = refl;
      at = db.statements;
      after_first = lt;
      alive = record {
        row = activate (w.clock (suc db.statements)) row;
        listed =
            mem-update (λ v. v.id == row.id) (activate (w.clock (suc db.statements))) db.workers
              listed (==_refl row.id);
        row_id = refl;
        named = (str_eq_iff row.name worker_name).0 ours;
        working = refl;
        beat = beat;
        kept = kept;
        of_worker = whose;
        seen_at = when;
      };
    })

-- If its statements are served, and the id that a new worker would get has no heartbeat yet, a
-- registration returns the id of a worker of the worker's name that is now active, with a heartbeat
-- of the time of one of the statements after the SELECT.
pub ensure_worker_alive :
    (w : World) (db : Db)
    → ServedFrom w db.statements 3
    → All (λ h. h.worker_id ≢ w.uuid (suc db.statements)) db.heartbeats
    → Registers w db.statements (ensure_worker w db)
unfolding ensure_worker
ensure_worker_alive w db (s0, s) fresh =
    subst (Registers w db.statements) (sym (served-bind w select_worker (register w) db s0))
      (elim (Option-cases (select_one is_ours db.workers)) [
        | inl e ↦ rw e (new-Registers w db.statements (sent db) (omega arith) s fresh)
        | inr (row, e) ↦ rw e (known-Registers w db.statements (sent db) row (omega arith) s e)
      ])
