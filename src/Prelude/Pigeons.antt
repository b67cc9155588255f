-- ===== src/Prelude/Pigeons.antt =====
-- Counting rows by their keys: as many rows are found as there are keys to find.
use Prim.Native.Nat.{ℕ, zero, suc, ◌+◌, ◌≤◌}
use mathlib.Core.Path.{◌≡◌, refl, ap, subst}
use mathlib.Core.Logic.{◌≢◌, inl, inr}
use mathlib.Core.Bool.{Bool, false}
use mathlib.Core.List.{List, [], ◌∷◌, map, Memᴰ}
use native.Mathlib.Omega.{arith}
use job_scheduler.Prelude.Tests.{◌==◌, eq_of_==, Bool-cases}
use job_scheduler.Prelude.Lists.{length, select, take, All, contains}
use job_scheduler.Prelude.Keys.{Distinct}
use job_scheduler.Prelude.Members.{All-mem, All_of_mem, mem-select, mem_of_mem-take}

module _ {ℓ} {A : Type ℓ} (key : A → ℕ) where
  pub Distinct-select : (p : A → Bool) (xs : List A) → Distinct key xs → Distinct key (select p xs)
  Distinct-select p [] d = tt
  Distinct-select p (x ∷ xs) d = elim (Bool-cases (p x)) [
    | inl e ↦ rw e (
      All_of_mem _ (select p xs) λ y m. All-mem (λ z. key z ≢ key x) xs d.0 (mem-select p xs m).0,
      Distinct-select p xs d.1,
    )
    | inr e ↦ rw e (Distinct-select p xs d.1)
  ]

  pub Distinct-take : (n : ℕ) (xs : List A) → Distinct key xs → Distinct key (take n xs)
  Distinct-take zero xs d = tt
  Distinct-take (suc n) [] d = tt
  Distinct-take (suc n) (x ∷ xs) d = (
    All_of_mem _ (take n xs) λ y m. All-mem (λ z. key z ≢ key x) xs d.0 (mem_of_mem-take n xs m),
    Distinct-take n xs d.1,
  )

  found_one :
      (k : ℕ) {x : A} (xs : List A)
      → Memᴰ x xs
      → key x ≡ k
      → 1 ≤ length (select (λ y. k == key y) xs)
  found_one k [] m e = elim m [ ]
  found_one k {x} (y ∷ ys) (Memᴰ.head q) e = ground (arith, ap key q)
  found_one k (y ∷ ys) (Memᴰ.tail m) e = ground (arith, found_one k ys m e)

  found_cons :
      (k : ℕ) (ks : List ℕ) (xs : List A)
      → contains ks k ≡ false
      → length (select (λ y. k == key y) xs) + length (select (λ y. contains ks (key y)) xs)
        ≤ length (select (λ y. contains (k ∷ ks) (key y)) xs)
  found_cons k ks [] h = omega arith
  found_cons k ks (x ∷ xs) h = elim (Bool-cases (k == key x)) [
    | inl e ↦
        let same : contains ks (key x) ≡ false =
          subst (λ i. contains ks i ≡ false) (eq_of_== k (key x) e) h in
        rw (e, same) (omega (arith, found_cons k ks xs h))
    | inr e ↦ elim (Bool-cases (contains ks (key x))) [
      | inl c ↦ rw (e, c) (omega (arith, found_cons k ks xs h))
      | inr c ↦ rw (e, c) (found_cons k ks xs h)
    ]
  ]

  contains_absent :
      (k : ℕ) (ys : List A) → All (λ y. key y ≢ k) ys → contains (map key ys) k ≡ false
  contains_absent k [] h = refl
  contains_absent k (y ∷ ys) h = ground (arith, contains_absent k ys h.1)

  -- Rows with different keys that all stand in a table are all found there.
  pub length-le_found :
      (ys xs : List A)
      → Distinct key ys
      → ((y : A) → Memᴰ y ys → Memᴰ y xs)
      → length ys ≤ length (select (λ x. contains (map key ys) (key x)) xs)
  length-le_found [] xs d h = omega arith
  length-le_found (y ∷ ys) xs d h = omega (
    arith,
    found_one (key y) xs (h y (Memᴰ.head refl)) refl,
    found_cons (key y) (map key ys) xs (contains_absent (key y) ys d.0),
    length-le_found ys xs d.1 (λ z m. h z (Memᴰ.tail m)),
  )
