-- ===== src/Console/Format/Slugs.antt =====
-- A slug made from a name is one that the form's pattern accepts.
use Prim.Native.Char.{Char}
use job_scheduler.Prelude.{
  ◌≡◌, refl, ap, ◌⊎◌, inl, inr, String, Bool, true, false, not, ◌&&◌, str_eq, str_eq_iff,
  if◌then◌else◌, Bool-cases, arith,
}
use job_scheduler.Json.{Js}
use job_scheduler.Console.Format.{
  is_word, is_dash, dash_runs, strip_start, keep, strip_end, slugify_name,
}

-- `[a-z0-9]+(?:-[a-z0-9]+)*`, the pattern of the slug fields: the flag says that a character of
-- [a-z0-9] must come.
pub matches_slug : Bool → String → Bool
matches_slug fresh String.[] = not fresh
matches_slug fresh (String.◌∷◌ c s) =
    let word = matches_slug false s in
    let dash = matches_slug true s in
    if is_word c then word else if is_dash c && not fresh then dash else false

-- Words with single dashes: the flag says that no dash may come.
abbrev Spaced : Bool → String → Type 0
Spaced dashed String.[] = Unit
Spaced dashed (String.◌∷◌ c s) =
    ((is_word c ≡ true) × Spaced false s)
    ⊎ ((is_word c ≡ false) × (is_dash c ≡ true) × (dashed ≡ false) × Spaced true s)

dash_runs-Spaced : (replaced : Bool) (s : String) → Spaced replaced (dash_runs replaced s)
unfolding dash_runs
dash_runs-Spaced true String.[] = tt
dash_runs-Spaced false String.[] = tt
dash_runs-Spaced true (String.◌∷◌ c s) = elim (Bool-cases (is_word c)) [
  | inl e ↦ rw (e, dash_runs) (inl (e, dash_runs-Spaced false s))
  | inr e ↦ rw (e, dash_runs) (dash_runs-Spaced true s)
]
dash_runs-Spaced false (String.◌∷◌ c s) = elim (Bool-cases (is_word c)) [
  | inl e ↦ rw (e, dash_runs) (inl (e, dash_runs-Spaced false s))
  | inr e ↦ rw (e, dash_runs) (inr (refl, refl, refl, dash_runs-Spaced true s))
]

word_not_dash : (c : Char) → is_word c ≡ true → is_dash c ≡ false
word_not_dash c h = ground arith

strip_start-Spaced : (d : Bool) (s : String) → Spaced d s → Spaced true (strip_start s)
unfolding strip_start
strip_start-Spaced d String.[] h = tt
strip_start-Spaced d (String.◌∷◌ c s) (inl (e, h)) =
    rw (word_not_dash c e, strip_start) (inl (e, h))
strip_start-Spaced d (String.◌∷◌ c s) (inr (e, f, g, h)) =
    rw (f, strip_start) (strip_start-Spaced true s h)

-- What is left of a text from a place where a dash may or may not come.
abbrev Ends : Bool → String → Type 0
Ends true t = (t ≡ "") ⊎ (matches_slug true t ≡ true)
Ends false t = matches_slug false t ≡ true

matches_slug-word :
    (d : Bool) (c : Char) (t : String)
    → is_word c ≡ true
    → matches_slug false t ≡ true
    → Ends d (String.◌∷◌ c t)
unfolding matches_slug
matches_slug-word true c t e h = inr (rw (e, matches_slug) h)
matches_slug-word false c t e h = rw (e, matches_slug) h

keep-word : (c : Char) (t : String) → is_word c ≡ true → keep c t ≡ String.◌∷◌ c t
keep-word c t e = rw (word_not_dash c e) refl

keep-dash :
    (c : Char) (t : String)
    → is_word c ≡ false
    → is_dash c ≡ true
    → Ends true t
    → matches_slug false (keep c t) ≡ true
unfolding matches_slug
keep-dash c t e f (inl q) = rw (f, ap (λ u. str_eq u "") q) refl
keep-dash c t e f (inr h) = elim (Bool-cases (str_eq t "")) [
  | inl q ↦ cc (h, ap (matches_slug true) ((str_eq_iff t "").0 q))
  | inr n ↦ rw (n, f, e, f, matches_slug) h
]

strip_end-Ends : (d : Bool) (s : String) → Spaced d s → Ends d (strip_end s)
unfolding strip_end matches_slug
strip_end-Ends true String.[] h = inl refl
strip_end-Ends false String.[] h = refl
strip_end-Ends d (String.◌∷◌ c s) (inl (e, h)) =
    rw (keep-word c (strip_end s) e)
      (matches_slug-word d c (strip_end s) e (strip_end-Ends false s h))
strip_end-Ends true (String.◌∷◌ c s) (inr (e, f, g, h)) = cc
strip_end-Ends false (String.◌∷◌ c s) (inr (e, f, g, h)) =
    keep-dash c (strip_end s) e f (strip_end-Ends true s h)

-- Whatever the name, its slug is empty, where the form asks for one, or matches the form's pattern.
pub slugify_name-matches :
    (js : Js) (name : String)
    → (slugify_name js name ≡ "") ⊎ (matches_slug true (slugify_name js name) ≡ true)
unfolding slugify_name
slugify_name-matches js name =
    let text = js.to_lower (js.trim name) in
    strip_end-Ends true (strip_start (dash_runs false text))
      (strip_start-Spaced false (dash_runs false text) (dash_runs-Spaced false text))
