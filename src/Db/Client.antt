-- ===== src/Db/Client.antt =====
-- What the SQL client and the server make of the parameters of a statement that come from a
-- request, and the JOINs by which a statement looks only at the rows of one organization.
use job_scheduler.Prelude.{ℕ, ℤ, String, Bool, false, Option, none, some, ◌==◌, select_one}
use job_scheduler.Json.{Json}
use job_scheduler.Db.{Db, Queue, Job}
use job_scheduler.Db.Sql.{Result, ok, throws}

-- A value (`none` is undefined) as a parameter of a column of the type; NULL is `none`.
pub record Client : Type 0 where
  pub text_param : Option Json → Result (Option String)
  pub int_param : Option Json → Result (Option ℤ)
  pub jsonb_param : Option Json → Result (Option Json)
  pub uuid_param : String → Result ℕ
  pub uuid_value_param : Option Json → Result (Option ℕ)
  -- String(v) of a UUID that was read
  pub uuid_text : ℕ → String

-- A value for a column that is NOT NULL.
abbrev pub not_null : {A : Type 0} → Option A → Result A
not_null none = throws "null value in column violates not-null constraint"
not_null (some a) = ok a

-- `JOIN projects p ON p.id = q.project_id WHERE p.org_id = org`
unfoldable pub is_queue_in : ℕ → Db → Queue → Bool
is_queue_in org db q = elim (select_one (λ p. p.id == q.project_id) db.projects) [
  | none ↦ false
  | some p ↦ p.org_id == org
]

-- `JOIN queues q ON q.id = j.queue_id JOIN projects p ON p.id = q.project_id WHERE p.org_id = org`
unfoldable pub is_job_in : ℕ → Db → Job → Bool
unfolding is_queue_in
is_job_in org db j = elim (select_one (λ q. q.id == j.queue_id) db.queues) [
  | none ↦ false
  | some q ↦ is_queue_in org db q
]
