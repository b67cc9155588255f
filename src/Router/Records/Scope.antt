-- ===== src/Router/Records/Scope.antt =====
-- Which dead letters a caller sees.
use mathlib.Core.List.Memᴰ
use job_scheduler.Prelude.{
  ℕ, ◌≤◌, ◌≡◌, refl, inl, inr, true, some, List, [], ◌∷◌, Memᴰ, Option-cases, ◌==◌, ◌&&◌, eq_of_==,
  length, length-take-le, mem-sort_by, mem_of_mem-take, mem_of_select_one, and_eq_true,
}
use job_scheduler.Db.{Db, DeadLetter, Queue}
use job_scheduler.Db.Client.{is_queue_in}
use job_scheduler.Http.{DlqItem}
use job_scheduler.Router.Records.{letter_queue, item_of, joined, failed_later, dead_letters}

-- An item that shows a dead letter, by a queue of the organization that the job came from.
pub record Shows (org_id : ℕ) (db : Db) (item : DlqItem) : Type 0 where
  pub letter : DeadLetter
  pub queue : Queue
  pub stored : Memᴰ letter db.dead_letters
  pub of_queue : Memᴰ queue db.queues
  pub original : queue.id ≡ letter.original_queue_id
  pub owned : is_queue_in org_id db queue ≡ true
  pub shown : item ≡ item_of letter queue

mem-joined :
    (org_id : ℕ) (db : Db) (ds : List DeadLetter) {item : DlqItem}
    → Memᴰ item (joined org_id db ds)
    → (d : DeadLetter) × (q : Queue) × Memᴰ d ds
      × (letter_queue org_id db d ≡ some q)
      × (item ≡ item_of d q)
unfolding joined
mem-joined org_id db [] m = elim m [ ]
mem-joined org_id db (d ∷ ds) {item} m = elim (Option-cases (letter_queue org_id db d)) [
  | inl e ↦ let (d', q, n, f, s) = mem-joined org_id db ds (rw e at m) in (d', q, Memᴰ.tail n, f, s)
  | inr (q, e) ↦
      let n : Memᴰ item (item_of d q ∷ joined org_id db ds) = rw e at m in
      elim (Memᴰ.cases_cons n) [
        | inl s ↦ (d, q, Memᴰ.head refl, e, s)
        | inr o ↦ let (d', q', n', f, s) = mem-joined org_id db ds o in (d', q', Memᴰ.tail n', f, s)
      ]
]

-- A caller sees a hundred dead letters at most, and each comes from a queue of its organization.
pub dead_letters_scoped :
    (org_id : ℕ) (db : Db)
    → (length (dead_letters org_id db) ≤ 100)
      × ((item : DlqItem) → Memᴰ item (dead_letters org_id db) → Shows org_id db item)
unfolding dead_letters letter_queue
dead_letters_scoped org_id db = (
  length-take-le 100 _,
  λ item m.
      let (d, q, n, found, s) =
        mem-joined org_id db db.dead_letters
          (mem-sort_by failed_later _ (mem_of_mem-take 100 _ m)) in
      let (there, test) =
        mem_of_select_one (λ q. (q.id == d.original_queue_id) && is_queue_in org_id db q) db.queues
          found in
      let (same, own) = and_eq_true (q.id == d.original_queue_id) (is_queue_in org_id db q) test in
      record {
        letter = d;
        queue = q;
        stored = n;
        of_queue = there;
        original = eq_of_== q.id d.original_queue_id same;
        owned = own;
        shown = s;
      },
)
