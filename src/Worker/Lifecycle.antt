-- ===== src/Worker/Lifecycle.antt =====
-- What the worker of dashboard/src/server/worker.ts may do with a job, without its tables: the
-- states of a job, its attempts, and the moves between them. This is the specification; it names no
-- statement of the program.
use job_scheduler.Prelude.{
  ℕ, ◌+◌, ◌≡◌, refl, ◌⊎◌, inl, inr, true, false, Bool, ℤ, pos, leb_ℤ, List, [], ◌∷◌, update,
  Bool-cases, Memᴰ, Distinct, All, ◌≢◌, sym, ◌∙◌, subst, arith,
}
use job_scheduler.Db.{
  Job, JobStatus, queued, claimed, running, completed, dead_letter, is_in_flight,
}

pub record Phase : Type 0 where
  pub status : JobStatus
  pub attempts : ℕ
  pub allowed : ℤ

abbrev pub phase_of : Job → Phase
phase_of j = record { status = j.status; attempts = j.attempts; allowed = j.max_attempts }

-- One move of a job. An attempt begins only at a job that is claimed and ends only at one that runs.
pub data Move (p : Phase) : Phase → Type 0 where
  claim : p.status ≡ queued → Move p (record p { status = claimed })
  start : p.status ≡ claimed → Move p (record p { status = running; attempts = p.attempts + 1 })
  complete : p.status ≡ running → Move p (record p { status = completed })
  bury :
      p.status ≡ running
      → leb_ℤ p.allowed (pos p.attempts) ≡ true
      → Move p (record p { status = dead_letter })
  requeue :
      p.status ≡ running
      → leb_ℤ p.allowed (pos p.attempts) ≡ false
      → Move p (record p { status = queued })
  reclaim : is_in_flight p.status ≡ true → Move p (record p { status = queued })

pub data Moves (p : Phase) : Phase → Type 0 where
  here : Moves p p
  then_move : {q r : Phase} → Moves p q → Move q r → Moves p r

pub Moves-trans : {p q r : Phase} → Moves p q → Moves q r → Moves p r
Moves-trans f here = f
Moves-trans f (then_move g s) = then_move (Moves-trans f g) s

-- Two tables, row by row.
abbrev pub Rows : (Job → Job → Type 0) → List Job → List Job → Type 0
Rows R [] [] = Unit
Rows R (x ∷ xs) (y ∷ ys) = R x y × Rows R xs ys
Rows R _ _ = ⊥

-- A row that stays in its phase or makes one move.
pub record Moved (x y : Job) : Type 0 where
  pub same_job : y.id ≡ x.id
  pub moved : (phase_of y ≡ phase_of x) ⊎ Move (phase_of x) (phase_of y)

-- A row that makes any number of moves.
pub record Lives (x y : Job) : Type 0 where
  pub same_job : y.id ≡ x.id
  pub moves : Moves (phase_of x) (phase_of y)

pub Rows-refl : (R : Job → Job → Type 0) → ((x : Job) → R x x) → (xs : List Job) → Rows R xs xs
Rows-refl R r [] = tt
Rows-refl R r (x ∷ xs) = (r x, Rows-refl R r xs)

pub Rows-map :
    {R S : Job → Job → Type 0}
    → ((x y : Job) → R x y → S x y)
    → (xs ys : List Job) → Rows R xs ys
    → Rows S xs ys
Rows-map f [] [] h = tt
Rows-map f (x ∷ xs) (y ∷ ys) h = (f x y h.0, Rows-map f xs ys h.1)
Rows-map f (x ∷ xs) [] h = elim h [ ]
Rows-map f [] (y ∷ ys) h = elim h [ ]

pub Rows-trans :
    {R S T : Job → Job → Type 0}
    → ((x y z : Job) → R x y → S y z → T x z)
    → (xs ys zs : List Job) → Rows R xs ys
    → Rows S ys zs
    → Rows T xs zs
Rows-trans f [] [] [] h k = tt
Rows-trans f (x ∷ xs) (y ∷ ys) (z ∷ zs) h k = (f x y z h.0 k.0, Rows-trans f xs ys zs h.1 k.1)
Rows-trans f [] [] (z ∷ zs) h k = elim k [ ]
Rows-trans f [] (y ∷ ys) zs h k = elim h [ ]
Rows-trans f (x ∷ xs) [] zs h k = elim h [ ]
Rows-trans f (x ∷ xs) (y ∷ ys) [] h k = elim k [ ]

-- An update, row by row; each row is one of the table's.
pub Rows-update :
    (R : Job → Job → Type 0) (p : Job → Bool) (f : Job → Job) (xs : List Job)
    → ((x : Job) → Memᴰ x xs → p x ≡ true → R x (f x))
    → ((x : Job) → Memᴰ x xs → p x ≡ false → R x x)
    → Rows R xs (update p f xs)
Rows-update R p f [] hit miss = tt
Rows-update R p f (x ∷ xs) hit miss = elim (Bool-cases (p x)) [
  | inl e ↦ rw e (
    hit x (Memᴰ.head refl) e,
    Rows-update R p f xs (λ y m. hit y (Memᴰ.tail m)) (λ y m. miss y (Memᴰ.tail m)),
  )
  | inr e ↦ rw e (
    miss x (Memᴰ.head refl) e,
    Rows-update R p f xs (λ y m. hit y (Memᴰ.tail m)) (λ y m. miss y (Memᴰ.tail m)),
  )
]

-- What a row of the first table has become.
pub Rows-mem :
    (R : Job → Job → Type 0) {x : Job} (xs ys : List Job)
    → Rows R xs ys
    → Memᴰ x xs
    → (y : Job) × Memᴰ y ys × R x y
Rows-mem R [] [] h m = elim m [ ]
Rows-mem R [] (y ∷ ys) h m = elim h [ ]
Rows-mem R (x ∷ xs) [] h m = elim h [ ]
Rows-mem R (x ∷ xs) (y ∷ ys) h (Memᴰ.head e) = (y, Memᴰ.head refl, subst (λ z. R z y) (sym e) h.0)
Rows-mem R (x ∷ xs) (y ∷ ys) h (Memᴰ.tail m) =
    let (z, n, r) = Rows-mem R xs ys h.1 m in (z, Memᴰ.tail n, r)

module _ {R : Job → Job → Type 0} (same : (x y : Job) → R x y → y.id ≡ x.id) where
  pub All-Rows :
      (k : ℕ) (xs ys : List Job) → Rows R xs ys → All (λ x. x.id ≢ k) xs → All (λ y. y.id ≢ k) ys
  All-Rows k [] [] h a = tt
  All-Rows k [] (y ∷ ys) h a = elim h [ ]
  All-Rows k (x ∷ xs) [] h a = elim h [ ]
  All-Rows k (x ∷ xs) (y ∷ ys) h a = ((λ e. a.0 (sym (same x y h.0) ∙ e)), All-Rows k xs ys h.1 a.1)

  -- Rows that keep their ids stay distinct.
  pub Distinct-Rows :
      (xs ys : List Job) → Rows R xs ys → Distinct (λ j. j.id) xs → Distinct (λ j. j.id) ys
  Distinct-Rows [] [] h d = tt
  Distinct-Rows [] (y ∷ ys) h d = elim h [ ]
  Distinct-Rows (x ∷ xs) [] h d = elim h [ ]
  Distinct-Rows (x ∷ xs) (y ∷ ys) h d =
      (rw (same x y h.0) (All-Rows x.id xs ys h.1 d.0), Distinct-Rows xs ys h.1 d.1)

pub Lives-refl : (x : Job) → Lives x x
Lives-refl x = record { same_job = refl; moves = here }

pub Lives-Moved : (x y z : Job) → Lives x y → Moved y z → Lives x z
Lives-Moved x y z l m = record {
  same_job = m.same_job ∙ l.same_job;
  moves = elim m.moved [
    | inl e ↦ subst (Moves (phase_of x)) (sym e) l.moves
    | inr s ↦ then_move l.moves s
  ];
}

pub Moved-Lives : (x y z : Job) → Moved x y → Lives y z → Lives x z
Moved-Lives x y z m l =
    let one = Lives-Moved x x y (Lives-refl x) m in
    record { same_job = l.same_job ∙ m.same_job; moves = Moves-trans one.moves l.moves }

-- No move leaves a phase in which the job is neither queued nor in flight.
abbrev pub final : JobStatus → Bool
final queued = false
final claimed = false
final running = false
final _ = true

final-Move : (p q : Phase) → final p.status ≡ true → Move p q → ⊥
final-Move p q f (Move.claim e) = ground arith
final-Move p q f (Move.start e) = ground arith
final-Move p q f (Move.complete e) = ground arith
final-Move p q f (Move.bury e _) = ground arith
final-Move p q f (Move.requeue e _) = ground arith
final-Move p q f (Move.reclaim e) = ground arith

pub final-Moves : {p q : Phase} → final p.status ≡ true → Moves p q → q ≡ p
final-Moves f here = refl
final-Moves {p} f (then_move {q = q} {r = r} g s) =
    let e = final-Moves f g in
    absurd (final-Move q r (subst (λ (t : Phase). final t.status ≡ true) (sym e) f) s)
