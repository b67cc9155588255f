-- ===== src/Prelude/Members.antt =====
-- Rows of a table, rows that a selection keeps, and rows with a given key.
use Prim.Native.Nat.{ℕ, zero, suc, ◌+◌, ◌≤◌}
use mathlib.Core.Path.{◌≡◌, refl, sym, ap, ◌∙◌, subst}
use mathlib.Core.Logic.{◌≢◌, ◌⊎◌, inl, inr}
use mathlib.Core.Bool.{Bool, true}
use mathlib.Core.List.{List, [], ◌∷◌, map, Memᴰ}
use mathlib.Core.List.Memᴰ
use native.Mathlib.Omega.{arith}
use job_scheduler.Prelude.Tests.{◌==◌, eq_of_==, ==_refl, Bool-cases}
use job_scheduler.Prelude.Lists.{length, select, update, count, take, drop, All, contains}
use job_scheduler.Prelude.Keys.{Distinct}

module _ {ℓ} {A : Type ℓ} where
  pub All-mem {κ} : (P : A → Type κ) {x : A} (xs : List A) → All P xs → Memᴰ x xs → P x
  All-mem P [] h m = elim m [ ]
  All-mem P (y ∷ ys) h (Memᴰ.head e) = subst P (sym e) h.0
  All-mem P (y ∷ ys) h (Memᴰ.tail m) = All-mem P ys h.1 m

  pub All-map {κ} : {P Q : A → Type κ} → ((x : A) → P x → Q x) → (xs : List A) → All P xs → All Q xs
  All-map f [] h = tt
  All-map f (x ∷ xs) h = (f x h.0, All-map f xs h.1)

  pub All_of_mem {κ} : (P : A → Type κ) (xs : List A) → ((x : A) → Memᴰ x xs → P x) → All P xs
  All_of_mem P [] f = tt
  All_of_mem P (x ∷ xs) f = (f x (Memᴰ.head refl), All_of_mem P xs (λ y m. f y (Memᴰ.tail m)))

module _ {ℓ} {A : Type ℓ} (p : A → Bool) where
  pub mem-select : {x : A} (xs : List A) → Memᴰ x (select p xs) → Memᴰ x xs × (p x ≡ true)
  mem-select [] m = elim m [ ]
  mem-select {x} (y ∷ ys) m = elim (Bool-cases (p y)) [
    | inl e ↦ elim (Memᴰ.cases_cons (rw e at m)) [
      | inl q ↦ (Memᴰ.head q, ap p q ∙ e)
      | inr n ↦ let (n', h) = mem-select ys n in (Memᴰ.tail n', h)
    ]
    | inr e ↦ let (n, h) = mem-select ys (rw e at m) in (Memᴰ.tail n, h)
  ]

  pub mem-select_of_mem : {x : A} (xs : List A) → Memᴰ x xs → p x ≡ true → Memᴰ x (select p xs)
  mem-select_of_mem [] m h = elim m [ ]
  mem-select_of_mem (y ∷ ys) (Memᴰ.head e) h = rw (sym (ap p e) ∙ h) (Memᴰ.head e)
  mem-select_of_mem (y ∷ ys) (Memᴰ.tail m) h = elim (Bool-cases (p y)) [
    | inl e ↦ rw e (Memᴰ.tail (mem-select_of_mem ys m h))
    | inr e ↦ rw e (mem-select_of_mem ys m h)
  ]

module _ {ℓ} {A : Type ℓ} where
  pub mem-take-or-drop :
      (n : ℕ) {x : A} (xs : List A) → Memᴰ x xs → Memᴰ x (take n xs) ⊎ Memᴰ x (drop n xs)
  mem-take-or-drop zero xs m = inr m
  mem-take-or-drop (suc n) [] m = elim m [ ]
  mem-take-or-drop (suc n) (y ∷ ys) (Memᴰ.head e) = inl (Memᴰ.head e)
  mem-take-or-drop (suc n) (y ∷ ys) (Memᴰ.tail m) = elim (mem-take-or-drop n ys m) [
    | inl t ↦ inl (Memᴰ.tail t)
    | inr d ↦ inr d
  ]

  pub mem_of_mem-drop : (n : ℕ) {x : A} (xs : List A) → Memᴰ x (drop n xs) → Memᴰ x xs
  mem_of_mem-drop zero xs m = m
  mem_of_mem-drop (suc n) [] m = m
  mem_of_mem-drop (suc n) (y ∷ ys) m = Memᴰ.tail (mem_of_mem-drop n ys m)

  pub mem_of_mem-take : (n : ℕ) {x : A} (xs : List A) → Memᴰ x (take n xs) → Memᴰ x xs
  mem_of_mem-take zero xs m = elim m [ ]
  mem_of_mem-take (suc n) [] m = elim m [ ]
  mem_of_mem-take (suc n) (y ∷ ys) (Memᴰ.head e) = Memᴰ.head e
  mem_of_mem-take (suc n) (y ∷ ys) (Memᴰ.tail m) = Memᴰ.tail (mem_of_mem-take n ys m)

module _ {ℓ} {A : Type ℓ} (key : A → ℕ) where
  pub Distinct-eq :
      {x y : A} (xs : List A) → Distinct key xs → Memᴰ x xs → Memᴰ y xs → key x ≡ key y → x ≡ y
  Distinct-eq [] d m n e = elim m [ ]
  Distinct-eq (z ∷ zs) d (Memᴰ.head p) (Memᴰ.head q) e = p ∙ sym q
  Distinct-eq (z ∷ zs) d (Memᴰ.head p) (Memᴰ.tail n) e =
      absurd (All-mem (λ y. key y ≢ key z) zs d.0 n (sym e ∙ ap key p))
  Distinct-eq (z ∷ zs) d (Memᴰ.tail m) (Memᴰ.head q) e =
      absurd (All-mem (λ y. key y ≢ key z) zs d.0 m (e ∙ ap key q))
  Distinct-eq (z ∷ zs) d (Memᴰ.tail m) (Memᴰ.tail n) e = Distinct-eq zs d.1 m n e

  pub contains-map_of_mem : {x : A} (xs : List A) → Memᴰ x xs → contains (map key xs) (key x) ≡ true
  contains-map_of_mem [] m = elim m [ ]
  contains-map_of_mem (y ∷ ys) (Memᴰ.head e) = rw (ap key e) (rw (==_refl (key y)) refl)
  contains-map_of_mem {x} (y ∷ ys) (Memᴰ.tail m) = ground (arith, contains-map_of_mem ys m)

  pub mem_of_contains-map :
      (k : ℕ) (xs : List A) → contains (map key xs) k ≡ true → (x : A) × Memᴰ x xs × (key x ≡ k)
  mem_of_contains-map k [] h = cc
  mem_of_contains-map k (y ∷ ys) h = elim (Bool-cases (key y == k)) [
    | inl e ↦ (y, Memᴰ.head refl, eq_of_== (key y) k e)
    | inr e ↦ let (x, m, q) = mem_of_contains-map k ys (rw e at h) in (x, Memᴰ.tail m, q)
  ]

  select_absent :
      (k : ℕ) (xs : List A) → All (λ y. key y ≢ k) xs → length (select (λ x. k == key x) xs) ≡ 0
  select_absent k [] h = refl
  select_absent k (x ∷ xs) h = ground (arith, select_absent k xs h.1)

  select_one_key :
      (k : ℕ) (xs : List A) → Distinct key xs → length (select (λ x. k == key x) xs) ≤ 1
  select_one_key k [] d = omega arith
  select_one_key k (x ∷ xs) d = elim (Bool-cases (k == key x)) [
    | inl e ↦
        let q = eq_of_== k (key x) e in rw e (omega (arith, select_absent k xs (rw (sym q) at d.0)))
    | inr e ↦ rw e (select_one_key k xs d.1)
  ]

  select-contains-cons :
      (k : ℕ) (ks : List ℕ) (xs : List A)
      → length (select (λ x. contains (k ∷ ks) (key x)) xs)
        ≤ length (select (λ x. k == key x) xs) + length (select (λ x. contains ks (key x)) xs)
  select-contains-cons k ks [] = omega arith
  select-contains-cons k ks (x ∷ xs) = ground (arith, select-contains-cons k ks xs)

  select-contains-nil : (xs : List A) → length (select (λ x. contains [] (key x)) xs) ≡ 0
  select-contains-nil [] = refl
  select-contains-nil (x ∷ xs) = select-contains-nil xs

  -- `WHERE id IN (…)` finds at most one row for each id.
  pub length-select-contains :
      (ks : List ℕ) (xs : List A)
      → Distinct key xs
      → length (select (λ x. contains ks (key x)) xs) ≤ length ks
  length-select-contains [] xs d = omega (arith, select-contains-nil xs)
  length-select-contains (k ∷ ks) xs d =
      omega
        (arith, select-contains-cons k ks xs, select_one_key k xs d, length-select-contains ks xs d)

-- Two conditions that agree on the rows of a table select and update alike.
module _ {ℓ} {A : Type ℓ} (p q : A → Bool) where
  pub select-congr : (xs : List A) → ((x : A) → Memᴰ x xs → p x ≡ q x) → select p xs ≡ select q xs
  select-congr [] h = refl
  select-congr (x ∷ xs) h = rw (h x (Memᴰ.head refl), select-congr xs (λ y m. h y (Memᴰ.tail m)))

  pub update-congr :
      (f : A → A) (xs : List A) → ((x : A) → Memᴰ x xs → p x ≡ q x) → update p f xs ≡ update q f xs
  update-congr f [] h = refl
  update-congr f (x ∷ xs) h =
      rw (h x (Memᴰ.head refl), update-congr f xs (λ y m. h y (Memᴰ.tail m)))

-- An update adds to a count at most the rows that it changes.
pub count-update-le {ℓ} :
    {A : Type ℓ} (p s : A → Bool) (f : A → A) (xs : List A)
    → count p (update s f xs) ≤ count p xs + length (select s xs)
count-update-le p s f [] = omega arith
count-update-le p s f (x ∷ xs) = ground (arith, count-update-le p s f xs)
