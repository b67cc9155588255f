-- ===== src/Console/Explorer/Filters.antt =====
-- What the status filters hold after a toggle.
use job_scheduler.Prelude.{
  ◌≡◌, refl, ap, String, true, not, List, [], ◌∷◌, ◌++◌, ◌&&◌, ◌||◌, str_eq, str_eq_iff,
  if◌then◌else◌, select, Bool-cases, inl, inr, arith,
}
use job_scheduler.Console.Explorer.{holds, toggled}

holds-select :
    (t s : String) (l : List String)
    → holds t (select (λ x. not (str_eq x s)) l) ≡ (holds t l && not (str_eq t s))
unfolding holds
holds-select t s [] = refl
holds-select t s (x ∷ l) =
    ground (arith, holds-select t s l, str_eq_iff x s, str_eq_iff x t, str_eq_iff t s)

holds-append : (t s : String) (l : List String) → holds t (l ++ s ∷ []) ≡ (holds t l || str_eq t s)
unfolding holds
holds-append t s [] = ground (arith, str_eq_iff s t, str_eq_iff t s)
holds-append t s (x ∷ l) = ground (arith, holds-append t s l)

-- A toggle of a status changes whether the filters hold that status, and no other.
pub toggled-holds :
    (s t : String) (filters : List String)
    → holds t (toggled s filters) ≡ (if str_eq t s then not (holds t filters) else holds t filters)
unfolding toggled
toggled-holds s t filters = elim (Bool-cases (holds s filters)) [
  | inl e ↦ rw (e, holds-select t s filters) (ground (arith, same, e))
  | inr e ↦ rw (e, holds-append t s filters) (ground (arith, same, e))
]
  where
    same : str_eq t s ≡ true → holds t filters ≡ holds s filters
    same h = ap (λ u. holds u filters) ((str_eq_iff t s).0 h)
