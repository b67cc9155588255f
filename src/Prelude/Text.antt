-- ===== src/Prelude/Text.antt =====
-- Texts: the library's comparison, and the operations of JavaScript on them that the code uses.
use Prim.Native.Char.{code}
use Prim.Native.String.{String}
use mathlib.Core.Path.{◌≡◌, refl}
use mathlib.Core.Logic.{◌≢◌}
use mathlib.Core.Bool.{Bool, true, false}
use mathlib.Core.Option.{Option, none, some}
use mathlib.Core.List.{List, [], ◌∷◌}
use job_scheduler.Prelude.Tests.{◌==◌, ==_refl, if◌then◌else◌}
pub use text.Mathlib.Text.{◌==◌ as str_eq}
pub use text.Mathlib.TextEquality.{eq_iff as str_eq_iff}

-- Texts that the comparison tells apart differ.
pub ne_of_str_eq : (s t : String) → str_eq s t ≡ false → s ≢ t
ne_of_str_eq s t h e = cc (h, (str_eq_iff s t).1 e)

infixr 65 ◌<>◌
-- `${s}${t}`
abbrev pub ◌<>◌ : String → String → String
String.[] <> t = t
(String.◌∷◌ c s) <> t = String.◌∷◌ c (s <> t)

-- `s.startsWith(p) ? s.slice(p.length) : …`, for a prefix of ASCII characters.
unfoldable pub after_prefix : String → String → Option String
after_prefix String.[] s = some s
after_prefix (String.◌∷◌ c p) String.[] = none
after_prefix (String.◌∷◌ c p) (String.◌∷◌ d s) =
    let rest = after_prefix p s in if code c == code d then rest else none

abbrev pub is_some {ℓ} : {A : Type ℓ} → Option A → Bool
is_some none = false
is_some (some a) = true

-- `s.startsWith(p)`
unfoldable pub starts_with : String → String → Bool
unfolding after_prefix
starts_with p s = is_some (after_prefix p s)

-- `s.includes(p)`
unfoldable pub includes : String → String → Bool
unfolding starts_with
includes p String.[] = starts_with p String.[]
includes p (String.◌∷◌ c s) =
    let later = includes p s in if starts_with p (String.◌∷◌ c s) then true else later

-- `parts.join("/")`
abbrev pub join_path : List String → String
join_path [] = ""
join_path (s ∷ []) = s
join_path (s ∷ t ∷ rest) = s <> ("/" <> join_path (t ∷ rest))

pub after_prefix-<> : (p t : String) → after_prefix p (p <> t) ≡ some t
unfolding after_prefix
after_prefix-<> String.[] t = refl
after_prefix-<> (String.◌∷◌ c p) t = rw (==_refl (code c)) (after_prefix-<> p t)
