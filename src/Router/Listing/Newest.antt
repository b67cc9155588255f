-- ===== src/Router/Listing/Newest.antt =====
-- Which jobs the listing shows.
use job_scheduler.Prelude.{
  and_eq_true, ◌||◌, ◌&&◌, str_eq, str_eq_iff, Bool-cases, ℕ, ◌≤◌, ◌≡◌, ◌⊎◌, inl, inr, String, true,
  false, Option, Memᴰ, arith, select, length, length-take-le, sort_by, sort_by-IsSorted,
  take-before-drop, mem-sort_by, mem-sort_by_of_mem, mem-select, mem-select_of_mem, mem_of_mem-take,
  mem-take-or-drop,
}
use job_scheduler.Db.{Db, Job}
use job_scheduler.Db.Client.{is_job_in}
use job_scheduler.Router.Listing.{status_text, is_of_queue, is_listed, is_newer, listing}

is_newer_total : (a b : Job) → is_newer a b ≡ false → is_newer b a ≡ true
unfolding is_newer
is_newer_total a b h = ground arith

is_newer_trans : (a b c : Job) → is_newer a b ≡ true → is_newer b c ≡ true → is_newer a c ≡ true
unfolding is_newer
is_newer_trans a b c p q = ground arith

le_of_is_newer : (a b : Job) → is_newer a b ≡ true → b.created_at ≤ a.created_at
unfolding is_newer
le_of_is_newer a b h = ground arith

is_listed-scope :
    (org_id : ℕ) (status : String) (queue_id : Option ℕ) (db : Db) (j : Job)
    → is_listed org_id status queue_id db j ≡ true
    → (is_job_in org_id db j ≡ true) × ((status ≡ "") ⊎ (status_text j.status ≡ status))
unfolding is_listed
is_listed-scope org_id status queue_id db j h =
    let state_test = str_eq status "" || str_eq (status_text j.status) status in
    let (both, _) = and_eq_true (is_job_in org_id db j && state_test) (is_of_queue queue_id j) h in
    let (mine, state) = and_eq_true (is_job_in org_id db j) state_test both in
    (
      mine,
      elim (Bool-cases (str_eq status "")) [
        | inl e ↦ inl ((str_eq_iff status "").0 e)
        | inr e ↦ inr ((str_eq_iff (status_text j.status) status).0 (rw e at state))
      ],
    )

-- Every job that the listing shows is a job of the caller's organization with the status that is
-- asked for, if one is, and it shows a hundred at most; a job that meets all conditions is shown,
-- or no job that is shown is older.
pub listing_newest :
    (org_id : ℕ) (status : String) (queue_id : Option ℕ) (db : Db) (j : Job)
    → let rows = listing org_id status queue_id db in
      (length rows ≤ 100)
      × (Memᴰ j rows
          → Memᴰ j db.jobs
            × (is_job_in org_id db j ≡ true)
            × ((status ≡ "") ⊎ (status_text j.status ≡ status)))
      × (Memᴰ j db.jobs
          → is_listed org_id status queue_id db j ≡ true
          → Memᴰ j rows ⊎ ((k : Job) → Memᴰ k rows → j.created_at ≤ k.created_at))
unfolding listing
listing_newest org_id status queue_id db j =
    let fits = is_listed org_id status queue_id db in
    let sorted = sort_by is_newer (select fits db.jobs) in
    (
      length-take-le 100 sorted,
      (λ m.
          let (old, fit) =
            mem-select fits db.jobs (mem-sort_by is_newer _ (mem_of_mem-take 100 sorted m)) in
          let (mine, state) = is_listed-scope org_id status queue_id db j fit in
          (old, mine, state)),
      λ m h.
          elim (mem-take-or-drop 100 sorted
            (mem-sort_by_of_mem is_newer _ (mem-select_of_mem fits db.jobs m h))) [
              | inl shown ↦ inl shown
              | inr left ↦ inr λ k n. le_of_is_newer k j (
                  take-before-drop is_newer 100 sorted
                    (sort_by-IsSorted is_newer is_newer_total is_newer_trans _) n left)
            ],
    )
