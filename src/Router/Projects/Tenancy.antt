-- ===== src/Router/Projects/Tenancy.antt =====
-- A queue that a caller creates belongs to the caller's organization, whatever fails.
use mathlib.Core.List.Memᴰ
use job_scheduler.Prelude.{
  ℕ, pos, ◌≡◌, refl, sym, ◌∙◌, subst, ◌⊎◌, inl, inr, String, true, Option, none, some, List, [],
  ◌∷◌, ◌++◌, Memᴰ, Option-cases, ◌==◌, ◌&&◌, str_eq, select_one, mem_of_select_one, and_eq_true,
  eq_of_==, Distinct, Distinct-eq, All-mem, absent_of_select_one, ◌≢◌,
}
use job_scheduler.Json.{Json, Js, null, obj, num, read_member, member}
use job_scheduler.Db.{Db, Project, Queue}
use job_scheduler.Db.Client.{Client, is_queue_in, not_null}
use job_scheduler.Db.Sql.{World, Moment, Result, ok, throws, Action, statement, ◌>>=◌, ◌>>?◌}
use job_scheduler.Db.Ensures.{
  Ensures, Ensures-statement, Ensures-bind, Ensures-pure, Ensures-after, Ensures-lift_eq, >>?-eq_ok,
  Post,
}
use job_scheduler.Http.{Body, json, error, map_queue}
use job_scheduler.Router.Submit.{read, nullish}
use job_scheduler.Router.Projects.{
  is_own, select_own_project, queue_row, insert_queue_row, insert_given_queue, create_queue_in,
  create_queue,
}

module _ (org_id : ℕ) (before : Db) where
  -- Each queue was there before, or is one of the organization.
  abbrev pub Adds : Db → Type 0
  Adds db =
      (q : Queue) → Memᴰ q db.queues → Memᴰ q before.queues ⊎ (is_queue_in org_id before q ≡ true)

  abbrev Same : Db → Type 0
  Same db = (db.queues ≡ before.queues) × (db.projects ≡ before.projects)

  Adds-of_Same : (db : Db) → Same db → Adds db
  Adds-of_Same db s q m = inl (subst (λ qs. Memᴰ q qs) s.0 m)

mem-snoc : (q r : Queue) (qs : List Queue) → Memᴰ q (qs ++ r ∷ []) → Memᴰ q qs ⊎ (q ≡ r)
mem-snoc q r [] m = elim (Memᴰ.cases_cons m) [ inl e ↦ inr e | inr n ↦ elim n [ ] ]
mem-snoc q r (p ∷ qs) m = elim (Memᴰ.cases_cons m) [
  | inl e ↦ inl (Memᴰ.head e)
  | inr n ↦ elim (mem-snoc q r qs n) [ inl o ↦ inl (Memᴰ.tail o) | inr e ↦ inr e ]
]

queue_row-project :
    (c : Client) (body : Json) (m : Moment) {row : Queue}
    → queue_row c body m ≡ ok row
    → (c.uuid_value_param (member "project_id" body) >>? not_null) ≡ ok row.project_id
unfolding queue_row
queue_row-project c body m {row} e =
    let (id, e1, rest1) =
      >>?-eq_ok (c.uuid_value_param (member "project_id" body) >>? not_null) _ e in
    let (name, _, rest2) = >>?-eq_ok (c.text_param (member "name" body) >>? not_null) _ rest1 in
    let (slug, _, rest3) = >>?-eq_ok (c.text_param (member "slug" body) >>? not_null) _ rest2 in
    let (priority, _, rest4) =
      >>?-eq_ok
        (c.int_param (nullish (member "priority_default" body) (some (num (pos 5)))) >>? not_null) _
        rest3 in
    let (limit, _, rest5) =
      >>?-eq_ok (c.int_param (nullish (member "concurrency_limit" body) (some null))) _ rest4 in
    cc (e1, rest5)

read_member-eq :
    (js : Js) (k : String) (body : Json) {given : Option Json}
    → read (read_member js k body) ≡ ok given
    → given ≡ member k body
unfolding read_member
read_member-eq js k null e = cc
read_member-eq js k (obj fields) e = cc
read_member-eq js k body e = cc

-- A project that the check found makes a queue of its id one of the organization.
is_queue_in_of_own :
    (org_id id : ℕ) (db : Db) (p : Project) (row : Queue)
    → Distinct (λ r. r.id) db.projects
    → select_one (is_own org_id (some id)) db.projects ≡ some p
    → row.project_id ≡ id
    → is_queue_in org_id db row ≡ true
unfolding is_queue_in
is_queue_in_of_own org_id id db p row distinct found same =
    let (there, test) = mem_of_select_one (is_own org_id (some id)) db.projects found in
    let (named, own) = and_eq_true (p.id == id) (p.org_id == org_id) test in
    elim (Option-cases (select_one (λ r. r.id == row.project_id) db.projects)) [
      | inl e ↦ absurd (
          All-mem (λ r. r.id ≢ row.project_id) db.projects
            (absent_of_select_one (λ r. r.id) row.project_id db.projects e) there
            (eq_of_== p.id id named ∙ sym same))
      | inr (r, e) ↦
          let (here, key) = mem_of_select_one (λ r. r.id == row.project_id) db.projects e in
          let one : r ≡ p =
            Distinct-eq (λ r. r.id) db.projects distinct here there
              (eq_of_== r.id row.project_id key ∙ same ∙ sym (eq_of_== p.id id named)) in
          rw (e, is_queue_in, one) own
    ]

module _ (c : Client) (org : String) (org_id : ℕ) (body : Json) (before : Db)
    (asked : c.uuid_param org ≡ ok org_id) (distinct : Distinct (λ p. p.id) before.projects) where
  abbrev Checked : Option Project → Type 0
  Checked none = Unit {0}
  Checked (some p) =
      (id : ℕ) × (c.uuid_value_param (member "project_id" body) ≡ ok (some id))
      × (select_one (is_own org_id (some id)) before.projects ≡ some p)

  abbrev Found : Option Project → Db → Type 0
  Found o db = Same org_id before db × Checked o

  abbrev Keeps : {A : Type 0} (P : Db → Type 0) → Action A → Type 0
  Keeps P m = Ensures (Adds org_id before) P m (λ _. Adds org_id before)

  Checked-of_select :
      (id : Option ℕ) (r : Option Project)
      → c.uuid_value_param (member "project_id" body) ≡ ok id
      → select_one (is_own org_id id) before.projects ≡ r
      → Checked r
  Checked-of_select id none e f = tt
  Checked-of_select (some i) (some p) e f = (i, e, f)
  Checked-of_select none (some p) e f =
      let (_, test) = mem_of_select_one (is_own org_id none) before.projects f in cc

  select_own_project-Found :
      (m : Moment)
      → Ensures
          (Adds org_id before)
          (Same org_id before)
          (select_own_project c org (member "project_id" body) m)
          Found
  unfolding select_own_project
  select_own_project-Found m =
      Ensures-lift_eq (c.uuid_value_param (member "project_id" body)) _ (Adds-of_Same org_id before)
        λ id e.
          Ensures-lift_eq (c.uuid_param org) (look id) (Adds-of_Same org_id before)
            λ o f. record { at = λ db s. (s, check id e o f db s) }
    where
      look : Option ℕ → ℕ → Action (Option Project)
      look id o db = (ok (select_one (is_own o id) db.projects), db)

      same_org : (o : ℕ) → c.uuid_param org ≡ ok o → o ≡ org_id
      same_org o f = cc (f, asked)

      check :
          (id : Option ℕ)
          → c.uuid_value_param (member "project_id" body) ≡ ok id
          → (o : ℕ) → c.uuid_param org ≡ ok o
          → (db : Db) → Same org_id before db
          → Checked (select_one (is_own o id) db.projects)
      check id e o f db s =
          rw (same_org o f, s.1)
            (Checked-of_select id (select_one (is_own org_id id) before.projects) e refl)

  insert_queue_row-Adds :
      (row : Queue) (db : Db)
      → is_queue_in org_id before row ≡ true
      → Same org_id before db
      → Adds org_id before (insert_queue_row row db).1
  unfolding insert_queue_row
  insert_queue_row-Adds row db own s =
      elim (Option-cases
        (select_one (λ q. (q.project_id == row.project_id) && str_eq q.slug row.slug) db.queues)) [
          | inr (q, e) ↦ rw (e, insert_queue_row) (Adds-of_Same org_id before db s)
          | inl e ↦ elim (Option-cases (select_one (λ p. p.id == row.project_id) db.projects)) [
            | inl f ↦ rw (e, f, insert_queue_row) (Adds-of_Same org_id before db s)
            | inr (p, f) ↦
                rw (e, f, insert_queue_row)
                  (λ q m. elim (mem-snoc q row db.queues m) [
                    | inl n ↦ Adds-of_Same org_id before db s q n
                    | inr q≡row ↦ inr (rw q≡row own)
                  ])
          ]
        ]

  insert_given_queue-Adds :
      (p : Project) (m : Moment)
      → Checked (some p)
      → Keeps (Same org_id before) (insert_given_queue c body m)
  unfolding insert_given_queue
  insert_given_queue-Adds p m (id, e, found) =
      Ensures-lift_eq (queue_row c body m) insert_queue_row (Adds-of_Same org_id before) λ row f.
        let same : row.project_id ≡ id = cc (queue_row-project c body m f, e) in
        let own = is_queue_in_of_own org_id id before p row distinct found same in
        record {
          at = λ db s. post (insert_queue_row row db).0 _ (insert_queue_row-Adds row db own s);
        }
    where
      post :
          {A : Type 0} (r : Result A) (db : Db)
          → Adds org_id before db
          → Post (Adds org_id before) (λ _. Adds org_id before) r db
      post (ok a) db h = h
      post (throws message) db h = h

  create_queue_in-Adds :
      (w : World) (o : Option Project)
      → Ensures
          (Adds org_id before)
          (Found o)
          (create_queue_in w c body o)
          (λ _. Adds org_id before)
  create_queue_in-Adds w none =
      Ensures-pure (error "project not found" 404 "ERROR")
        (λ db s. Adds-of_Same org_id before db s.0)
  create_queue_in-Adds w (some p) = record { at = λ db s. (inserted s.1).at db s.0 }
    where
      inserted : Checked (some p) → Keeps (Same org_id before) (create_queue_in w c body (some p))
      inserted known =
          Ensures-bind (statement w (insert_given_queue c body)) _
            (Ensures-statement w (insert_given_queue c body) (λ _ s. s) (Adds-of_Same org_id before)
              (λ _ _ h. h) (λ m. (insert_given_queue-Adds p m known).at))
            λ row. Ensures-pure (json (Body.queue (map_queue w.js row)) 201) (λ _ h. h)

  checked-Adds :
      (w : World)
      → Keeps (Same org_id before) (
          statement w (select_own_project c org (member "project_id" body))
          >>= create_queue_in w c body)
  checked-Adds w =
      Ensures-bind (statement w (select_own_project c org (member "project_id" body)))
        (create_queue_in w c body)
        (Ensures-statement w (select_own_project c org (member "project_id" body)) (λ _ s. s)
          (Adds-of_Same org_id before) (λ _ db s. Adds-of_Same org_id before db s.0)
          (λ m. (select_own_project-Found m).at))
        (create_queue_in-Adds w)

-- If the ids of the projects are distinct, then after a request to create a queue, whatever the
-- request and whatever statement fails, every queue was there before or belongs to a project of the
-- caller's organization.
pub create_queue_scoped :
    (w : World) (c : Client) (org : String) (org_id : ℕ) (request : Result Json) (db : Db)
    → c.uuid_param org ≡ ok org_id
    → Distinct (λ p. p.id) db.projects
    → (q : Queue) → Memᴰ q (create_queue w c org request db).1.queues
    → Memᴰ q db.queues ⊎ (is_queue_in org_id db q ≡ true)
unfolding create_queue
create_queue_scoped w c org org_id request db asked distinct =
    Ensures-after (create_queue w c org request) db
      (Ensures-lift_eq request _ (Adds-of_Same org_id db) λ body _.
        Ensures-lift_eq (read (read_member w.js "project_id" body)) _ (Adds-of_Same org_id db)
          λ given e.
            rw (read_member-eq w.js "project_id" body e)
              (checked-Adds c org org_id body db asked distinct w))
      (refl, refl)
