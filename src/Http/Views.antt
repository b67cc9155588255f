-- ===== src/Http/Views.antt =====
-- What a page of jobs shows.
use job_scheduler.Prelude.{ℕ, ◌≡◌, refl, List, [], ◌∷◌, map, arith}
use job_scheduler.Json.{Js}
use job_scheduler.Db.{Job, JobStatus}
use job_scheduler.Db.Sql.{Result, ok, throws}
use job_scheduler.Http.{JobView, map_job, map_jobs, cons_view}

cons_view-eq_ok :
    (r : Result JobView) (rest : Result (List JobView)) {views : List JobView}
    → cons_view r rest ≡ ok views
    → (v : JobView) × (vs : List JobView) × (r ≡ ok v) × (rest ≡ ok vs) × (views ≡ v ∷ vs)
cons_view-eq_ok (throws s) rest e = cc
cons_view-eq_ok (ok v) (throws s) e = cc
cons_view-eq_ok (ok v) (ok vs) e = (v, vs, refl, refl, cc)

abbrev pub shown : JobView → ℕ × JobStatus × ℕ
shown v = (v.id, v.status, v.attempts)

abbrev pub stored : Job → ℕ × JobStatus × ℕ
stored j = (j.id, j.status, j.attempts)

map_job-shown : (js : Js) (row : Job) {v : JobView} → map_job js row ≡ ok v → shown v ≡ stored row
unfolding map_job
map_job-shown js row e = ground arith

-- A page that is answered shows every selected job, in order, with its id, status and attempts.
pub map_jobs-shown :
    (js : Js) (rows : List Job) (views : List JobView)
    → map_jobs js rows ≡ ok views
    → map shown views ≡ map stored rows
unfolding map_jobs
map_jobs-shown js [] views e = cc
map_jobs-shown js (row ∷ rows) views e =
    let (v, vs, first, rest, both) = cons_view-eq_ok (map_job js row) (map_jobs js rows) e in
    rw (both, map_job-shown js row first, map_jobs-shown js rows vs rest)
