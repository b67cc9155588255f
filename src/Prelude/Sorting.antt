-- ===== src/Prelude/Sorting.antt =====
-- ORDER BY: a list sorted by insertion, and what LIMIT keeps of it.
use Prim.Native.Nat.{ℕ, zero, suc}
use mathlib.Core.Path.{◌≡◌}
use mathlib.Core.Logic.{◌⊎◌, inl, inr}
use mathlib.Core.Bool.{Bool, true, false}
use mathlib.Core.List.Memᴰ
use mathlib.Core.List.{List, [], ◌∷◌, Memᴰ}
use job_scheduler.Prelude.Tests.{if◌then◌else◌, Bool-cases}
use job_scheduler.Prelude.Lists.{All, take, drop}
use job_scheduler.Prelude.Members.{All-mem, All_of_mem, mem_of_mem-drop}

module _ {ℓ} {A : Type ℓ} (before : A → A → Bool) where
  unfoldable pub insert_sorted : A → List A → List A
  insert_sorted a [] = a ∷ []
  insert_sorted a (b ∷ bs) =
      let rest = insert_sorted a bs in if before a b then a ∷ b ∷ bs else b ∷ rest

  unfoldable pub sort_by : List A → List A
  sort_by [] = []
  sort_by (a ∷ rest) = insert_sorted a (sort_by rest)

  -- Each row may stand before all that follow.
  abbrev pub IsSorted : List A → Type 0
  IsSorted [] = Unit
  IsSorted (a ∷ rest) = All (λ b. before a b ≡ true) rest × IsSorted rest

  pub mem-insert_sorted :
      (a : A) {x : A} (xs : List A) → Memᴰ x (insert_sorted a xs) → (x ≡ a) ⊎ Memᴰ x xs
  unfolding insert_sorted
  mem-insert_sorted a [] m = Memᴰ.cases_cons m
  mem-insert_sorted a {x} (b ∷ bs) m = elim (Bool-cases (before a b)) [
    | inl e ↦ Memᴰ.cases_cons (rw e at m)
    | inr e ↦
        let n : Memᴰ x (b ∷ insert_sorted a bs) = rw e at m in
        elim (Memᴰ.cases_cons n) [
          | inl q ↦ inr (Memᴰ.head q)
          | inr o ↦ elim (mem-insert_sorted a bs o) [ inl q ↦ inl q | inr t ↦ inr (Memᴰ.tail t) ]
        ]
  ]

  pub mem-insert_sorted_of_mem :
      (a : A) {x : A} (xs : List A) → Memᴰ x (a ∷ xs) → Memᴰ x (insert_sorted a xs)
  unfolding insert_sorted
  mem-insert_sorted_of_mem a [] m = m
  mem-insert_sorted_of_mem a {x} (b ∷ bs) m = elim (Bool-cases (before a b)) [
    | inl e ↦ rw e m
    | inr e ↦
        let rest : Memᴰ x (a ∷ bs) → Memᴰ x (b ∷ insert_sorted a bs) =
          λ n. Memᴰ.tail (mem-insert_sorted_of_mem a bs n) in
        rw e (elim (Memᴰ.cases_cons m) [
          | inl q ↦ rest (Memᴰ.head q)
          | inr n ↦ elim (Memᴰ.cases_cons n) [ inl q ↦ Memᴰ.head q | inr o ↦ rest (Memᴰ.tail o) ]
        ])
  ]

  pub mem-sort_by : {x : A} (xs : List A) → Memᴰ x (sort_by xs) → Memᴰ x xs
  unfolding sort_by
  mem-sort_by [] m = m
  mem-sort_by (a ∷ rest) m = elim (mem-insert_sorted a (sort_by rest) m) [
    | inl q ↦ Memᴰ.head q
    | inr n ↦ Memᴰ.tail (mem-sort_by rest n)
  ]

  pub mem-sort_by_of_mem : {x : A} (xs : List A) → Memᴰ x xs → Memᴰ x (sort_by xs)
  unfolding sort_by
  mem-sort_by_of_mem [] m = m
  mem-sort_by_of_mem (a ∷ rest) (Memᴰ.head q) =
      mem-insert_sorted_of_mem a (sort_by rest) (Memᴰ.head q)
  mem-sort_by_of_mem (a ∷ rest) (Memᴰ.tail m) =
      mem-insert_sorted_of_mem a (sort_by rest) (Memᴰ.tail (mem-sort_by_of_mem rest m))

  -- What LIMIT keeps may stand before what it cuts off.
  pub take-before-drop :
      (n : ℕ) {x y : A} (xs : List A)
      → IsSorted xs
      → Memᴰ x (take n xs)
      → Memᴰ y (drop n xs)
      → before x y ≡ true
  take-before-drop zero xs h m o = elim m [ ]
  take-before-drop (suc n) [] h m o = elim m [ ]
  take-before-drop (suc n) {y = y} (a ∷ rest) h (Memᴰ.head q) o =
      rw q (All-mem (λ b. before a b ≡ true) rest h.0 (mem_of_mem-drop n rest o))
  take-before-drop (suc n) (a ∷ rest) h (Memᴰ.tail m) o = take-before-drop n rest h.1 m o

  module _ (total : (a b : A) → before a b ≡ false → before b a ≡ true)
      (trans : (a b c : A) → before a b ≡ true → before b c ≡ true → before a c ≡ true) where
    insert_sorted-IsSorted : (a : A) (xs : List A) → IsSorted xs → IsSorted (insert_sorted a xs)
    unfolding insert_sorted
    insert_sorted-IsSorted a [] h = (tt, tt)
    insert_sorted-IsSorted a (b ∷ bs) h = elim (Bool-cases (before a b)) [
      | inl e ↦
          rw e (
            (e, All_of_mem _ bs λ x m. trans a b x e (All-mem (λ y. before b y ≡ true) bs h.0 m)),
            h,
          )
      | inr e ↦ rw e (
        All_of_mem _ (insert_sorted a bs) λ x m. elim (mem-insert_sorted a bs m) [
          | inl q ↦ rw q (total a b e)
          | inr n ↦ All-mem (λ y. before b y ≡ true) bs h.0 n
        ],
        insert_sorted-IsSorted a bs h.1,
      )
    ]

    pub sort_by-IsSorted : (xs : List A) → IsSorted (sort_by xs)
    unfolding sort_by
    sort_by-IsSorted [] = tt
    sort_by-IsSorted (a ∷ rest) = insert_sorted-IsSorted a (sort_by rest) (sort_by-IsSorted rest)
