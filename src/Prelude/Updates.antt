-- ===== src/Prelude/Updates.antt =====
-- Updates, appends and lookups keep keys distinct.
use Prim.Native.Nat.{ℕ}
use mathlib.Core.Path.{◌≡◌, refl, sym, ap, ◌∙◌, subst}
use mathlib.Core.Logic.{◌≢◌, inl, inr}
use mathlib.Core.Bool.{Bool, true, false}
use mathlib.Core.Option.{Option, none, some}
use mathlib.Core.List.{List, [], ◌∷◌, ◌++◌, map, Memᴰ}
use native.Mathlib.Omega.{arith}
use job_scheduler.Prelude.Tests.{◌==◌, Bool-cases}
use job_scheduler.Prelude.Lists.{select, select_one, update, All}
use job_scheduler.Prelude.Keys.{Distinct}
use job_scheduler.Prelude.Members.{All-map}

-- An update that keeps the keys keeps them distinct.
pub All-update {ℓ κ} :
    {A : Type ℓ} (P : A → Type κ) (p : A → Bool) (f : A → A)
    → (xs : List A) → ((x : A) → p x ≡ true → P x → P (f x))
    → All P xs
    → All P (update p f xs)
All-update P p f [] h a = tt
All-update P p f (x ∷ xs) h a = elim (Bool-cases (p x)) [
  | inl e ↦ rw e (h x e a.0, All-update P p f xs h a.1)
  | inr e ↦ rw e (a.0, All-update P p f xs h a.1)
]

pub All-update_both {ℓ κ} :
    {A : Type ℓ} (P Q : A → Type κ) (p : A → Bool) (f : A → A) (xs : List A)
    → ((x : A) → p x ≡ true → P x → Q (f x))
    → ((x : A) → p x ≡ false → P x → Q x)
    → All P xs
    → All Q (update p f xs)
All-update_both P Q p f [] hit miss a = tt
All-update_both P Q p f (x ∷ xs) hit miss a = elim (Bool-cases (p x)) [
  | inl e ↦ rw e (hit x e a.0, All-update_both P Q p f xs hit miss a.1)
  | inr e ↦ rw e (miss x e a.0, All-update_both P Q p f xs hit miss a.1)
]

pub All-update_key {ℓ} :
    {A : Type ℓ} (key : A → ℕ) (k : ℕ) (p : A → Bool) (f : A → A)
    → (xs : List A) → ((x : A) → key (f x) ≡ key x)
    → All (λ y. key y ≢ k) xs
    → All (λ y. key y ≢ k) (update p f xs)
All-update_key key k p f xs h a = All-update (λ y. key y ≢ k) p f xs (λ x _ n. rw (h x) n) a

pub Distinct-update {ℓ} :
    {A : Type ℓ} (key : A → ℕ) (p : A → Bool) (f : A → A)
    → (xs : List A) → ((x : A) → key (f x) ≡ key x)
    → Distinct key xs
    → Distinct key (update p f xs)
Distinct-update key p f [] h d = tt
Distinct-update key p f (x ∷ xs) h d = elim (Bool-cases (p x)) [
  | inl e ↦ rw (e, h x) (All-update_key key (key x) p f xs h d.0, Distinct-update key p f xs h d.1)
  | inr e ↦ rw e (All-update_key key (key x) p f xs h d.0, Distinct-update key p f xs h d.1)
]

-- A row whose key is not in a table can be appended.
pub Distinct-append {ℓ} :
    {A : Type ℓ} (key : A → ℕ) (a : A) (xs : List A)
    → All (λ y. key y ≢ key a) xs
    → Distinct key xs
    → Distinct key (xs ++ a ∷ [])
Distinct-append key a [] h d = (tt, tt)
Distinct-append {A = A} key a (x ∷ xs) h d = (snoc xs d.0, Distinct-append key a xs h.1 d.1)
  where
    snoc : (ys : List A) → All (λ y. key y ≢ key x) ys → All (λ y. key y ≢ key x) (ys ++ a ∷ [])
    snoc [] t = ((λ e. h.0 (sym e)), tt)
    snoc (y ∷ ys) t = (t.0, snoc ys t.1)

-- What a lookup by key did not find is not there.
pub absent_of_select_one {ℓ} :
    {A : Type ℓ} (key : A → ℕ) (k : ℕ) (xs : List A)
    → select_one (λ x. key x == k) xs ≡ none
    → All (λ y. key y ≢ k) xs
absent_of_select_one key k [] e = tt
absent_of_select_one key k (x ∷ xs) e = elim (Bool-cases (key x == k)) [
  | inl h ↦ cc (rw h at e)
  | inr h ↦ (ground arith, absent_of_select_one key k xs (rw h at e))
]

module _ {ℓ} {A : Type ℓ} (p : A → Bool) where
  pub mem_of_select_one :
      (xs : List A) {x : A} → select_one p xs ≡ some x → Memᴰ x xs × (p x ≡ true)
  mem_of_select_one [] e = cc
  mem_of_select_one (y ∷ ys) {x} e = elim (Bool-cases (p y)) [
    | inl h ↦ let q : y ≡ x = cc (rw h at e) in (Memᴰ.head (sym q), subst (λ z. p z ≡ true) q h)
    | inr h ↦ let (m, t) = mem_of_select_one ys (rw h at e) in (Memᴰ.tail m, t)
  ]

  pub mem-update :
      (f : A → A) {x : A} (xs : List A) → Memᴰ x xs → p x ≡ true → Memᴰ (f x) (update p f xs)
  mem-update f [] m h = elim m [ ]
  mem-update f (y ∷ ys) (Memᴰ.head e) h = rw (sym (ap p e) ∙ h) (Memᴰ.head (ap f e))
  mem-update f (y ∷ ys) (Memᴰ.tail m) h = Memᴰ.tail (mem-update f ys m h)

  -- A row that an update passes over stays.
  pub mem-update_miss :
      (f : A → A) {x : A} (xs : List A) → Memᴰ x xs → p x ≡ false → Memᴰ x (update p f xs)
  mem-update_miss f [] m h = elim m [ ]
  mem-update_miss f (y ∷ ys) (Memᴰ.head e) h = rw (sym (ap p e) ∙ h) (Memᴰ.head e)
  mem-update_miss f (y ∷ ys) (Memᴰ.tail m) h = Memᴰ.tail (mem-update_miss f ys m h)

  -- The rows that a selection finds are, after the update, in the table.
  pub mem-update-select :
      (f : A → A) (xs : List A) → All (λ y. Memᴰ y (update p f xs)) (map f (select p xs))
  mem-update-select f [] = tt
  mem-update-select f (x ∷ xs) = elim (Bool-cases (p x)) [
    | inl e ↦ rw e (Memᴰ.head refl, All-map (λ y m. Memᴰ.tail m) _ (mem-update-select f xs))
    | inr e ↦ rw e (All-map (λ y m. Memᴰ.tail m) _ (mem-update-select f xs))
  ]

-- Looking up a key behind an update of one key.
module _ {ℓ} {A : Type ℓ} (key : A → ℕ) (f : A → A) (same : (x : A) → key (f x) ≡ key x) where
  pub select_one-update_self :
      (k : ℕ) (xs : List A) {x : A}
      → select_one (λ y. key y == k) xs ≡ some x
      → select_one (λ y. key y == k) (update (λ y. key y == k) f xs) ≡ some (f x)
  select_one-update_self k [] e = cc
  select_one-update_self k (y ∷ ys) e = elim (Bool-cases (key y == k)) [
    | inl h ↦ rw (h, same y, h) (ap f' (rw h at e))
    | inr h ↦ rw (h, h) (select_one-update_self k ys (rw h at e))
  ]
    where
      f' : Option A → Option A
      f' none = none
      f' (some z) = some (f z)

  pub select_one-update_ne :
      (k j : ℕ) (xs : List A)
      → j ≢ k
      → select_one (λ y. key y == j) (update (λ y. key y == k) f xs)
        ≡ select_one (λ y. key y == j) xs
  select_one-update_ne k j [] n = refl
  select_one-update_ne k j (y ∷ ys) n = elim (Bool-cases (key y == k)) [
    | inl h ↦ rw (h, same y) (ground (arith, select_one-update_ne k j ys n))
    | inr h ↦ rw h (ground (arith, select_one-update_ne k j ys n))
  ]
