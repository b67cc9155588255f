-- ===== src/Db/Ensures.antt =====
-- Postconditions of programs, whatever the world does: `Q` holds if the program returns, and `E` if
-- an exception ends it.
use job_scheduler.Prelude.{◌≡◌, refl, String, Bool, true, false, if◌then◌else◌}
use job_scheduler.Db.{Db}
use job_scheduler.Db.Sql.{
  World, Fault, served, refused, lost, Moment, moment, sent, Result, ok, throws, Query, Action,
  statement, pure, throw, lift, and_then, ◌>>=◌, ◌>>?◌,
}

module _ {A : Type 0} (E : Db → Type 0) (Q : A → Db → Type 0) where
  abbrev pub Post : Result A → Db → Type 0
  Post (ok a) db = Q a db
  Post (throws _) db = E db

-- From a database with `P` the program ends with `Q`, or with `E` if it throws.
pub record Ensures {A : Type 0} (E P : Db → Type 0) (m : Action A) (Q : A → Db → Type 0)
    : Type 0 where
  pub at : (db : Db) → P db → Post E Q (m db).0 (m db).1

module _ {A : Type 0} {E P : Db → Type 0} {Q : A → Db → Type 0} where
  pub Ensures-pure : (a : A) → ((db : Db) → P db → Q a db) → Ensures E P (pure a) Q
  Ensures-pure a h = record { at = h }

  pub Ensures-throw : (s : String) → ((db : Db) → P db → E db) → Ensures E P (throw s) Q
  Ensures-throw s h = record { at = h }

  pub Ensures-lift :
      (r : Result A)
      → ((db : Db) → P db → E db)
      → ((a : A) (db : Db) → P db → Q a db)
      → Ensures E P (lift r) Q
  Ensures-lift (ok a) out keep = record { at = keep a }
  Ensures-lift (throws s) out keep = record { at = out }

  pub Ensures-if :
      (b : Bool) {m n : Action A}
      → Ensures E P m Q
      → Ensures E P n Q
      → Ensures E P (if b then m else n) Q
  Ensures-if true hm hn = hm
  Ensures-if false hm hn = hn

  -- A statement that is refused changes no table, and one whose answer is lost has had its effect.
  pub Ensures-moment :
      (w : World) (query : Query A)
      → ((db : Db) → P db → E (sent db))
      → ((a : A) (db : Db) → Q a db → E db)
      → ((db : Db)
          → P db
          → Post E Q (query (moment w db) (sent db)).0 (query (moment w db) (sent db)).1)
      → Ensures E P (statement w query) Q
  unfolding statement
  Ensures-moment w query out lose run = record { at = λ db p. case db (w.fault db.statements) p }
    where
      weaken : (r : Result A) (db : Db) → Post E Q r db → E db
      weaken (ok a) db q = lose a db q
      weaken (throws _) db q = q

      case :
          (db : Db) (f : Fault)
          → P db
          → let r : Result A × Db = elim f [
            | served ↦ query (moment w db) (sent db)
            | refused message ↦ (throws message, sent db)
            | lost message ↦ (throws message, (query (moment w db) (sent db)).1)
          ] in
            Post E Q r.0 r.1
      case db served p = run db p
      case db (refused s) p = out db p
      case db (lost s) p = weaken _ _ (run db p)

  -- `P'` holds once the statement is counted.
  pub Ensures-counted :
      {P' : Db → Type 0} (w : World) (query : Query A)
      → ((db : Db) → P db → P' (sent db))
      → ((db : Db) → P' db → E db)
      → ((a : A) (db : Db) → Q a db → E db)
      → ((m : Moment) (db : Db) → P' db → Post E Q (query m db).0 (query m db).1)
      → Ensures E P (statement w query) Q
  Ensures-counted w query stable out lose run =
      Ensures-moment w query (λ db p. out (sent db) (stable db p)) lose
        (λ db p. run (moment w db) (sent db) (stable db p))

  pub Ensures-statement :
      (w : World) (query : Query A)
      → ((db : Db) → P db → P (sent db))
      → ((db : Db) → P db → E db)
      → ((a : A) (db : Db) → Q a db → E db)
      → ((m : Moment) (db : Db) → P db → Post E Q (query m db).0 (query m db).1)
      → Ensures E P (statement w query) Q
  Ensures-statement w query stable out lose run = Ensures-counted w query stable out lose run

module _ {A B : Type 0} {E : Db → Type 0} {Q : A → Db → Type 0} {R : B → Db → Type 0} where
  and_then-Post :
      (f : A → Action B)
      → ((a : A) → Ensures E (Q a) (f a) R)
      → (r : Result A) (db : Db) → Post E Q r db
      → Post E R (and_then r f db).0 (and_then r f db).1
  and_then-Post f h (ok a) db q = (h a).at db q
  and_then-Post f h (throws s) db q = q

  pub Ensures-bind :
      {P : Db → Type 0} (m : Action A) (f : A → Action B)
      → Ensures E P m Q
      → ((a : A) → Ensures E (Q a) (f a) R)
      → Ensures E P (m >>= f) R
  Ensures-bind m f hm hf = record { at = λ db p. and_then-Post f hf (m db).0 (m db).1 (hm.at db p) }

Post-const : {A : Type 0} (E : Db → Type 0) (r : Result A) (db : Db) → E db → Post E (λ _. E) r db
Post-const E (ok a) db h = h
Post-const E (throws s) db h = h

const-Post : {A : Type 0} (E : Db → Type 0) (r : Result A) (db : Db) → Post E (λ _. E) r db → E db
const-Post E (ok a) db h = h
const-Post E (throws s) db h = h

module _ {A : Type 0} {E : Db → Type 0} where
  -- A statement whose query keeps a property of the tables keeps it, whatever becomes of it.
  pub Ensures-keeps :
      (w : World) (query : Query A)
      → ((db : Db) → E db → E (sent db))
      → ((m : Moment) (db : Db) → E db → E (query m db).1)
      → Ensures E E (statement w query) (λ _. E)
  Ensures-keeps w query stable keep =
      Ensures-statement w query stable (λ db h. h) (λ _ db h. h)
        λ m db h. let (r, after) = query m db in Post-const E r after (keep m db h)

  pub Ensures-pre :
      {P P' : Db → Type 0} {Q : A → Db → Type 0} {m : Action A}
      → ((db : Db) → P' db → P db)
      → Ensures E P m Q
      → Ensures E P' m Q
  Ensures-pre h e = record { at = λ db p. e.at db (h db p) }

  -- What a program leaves behind, returning or not.
  pub Ensures-after :
      {P : Db → Type 0} (m : Action A) (db : Db) → Ensures E P m (λ _. E) → P db → E (m db).1
  Ensures-after m db e h = const-Post E (m db).0 (m db).1 (e.at db h)

module _ {A B : Type 0} {E P : Db → Type 0} {R : B → Db → Type 0} where
  -- What a conversion gave is known behind it.
  pub Ensures-lift_eq :
      (r : Result A) (f : A → Action B)
      → ((db : Db) → P db → E db)
      → ((a : A) → r ≡ ok a → Ensures E P (f a) R)
      → Ensures E P (lift r >>= f) R
  Ensures-lift_eq (ok a) f out h = h a refl
  Ensures-lift_eq (throws s) f out h = record { at = out }

-- A conversion behind another succeeds only if both do.
pub >>?-eq_ok :
    {A B : Type 0} (r : Result A) (f : A → Result B) {b : B}
    → (r >>? f) ≡ ok b
    → (a : A) × (r ≡ ok a) × (f a ≡ ok b)
>>?-eq_ok (ok a) f e = (a, refl, e)
>>?-eq_ok (throws s) f e = cc
