-- ===== src/Router/Paths/Matching.antt =====
-- The patterns of the two resources at the paths that name them.
use Prim.Native.Char.{code}
use job_scheduler.Prelude.{
  ◌≡◌, ◌≢◌, refl, ap, String, true, false, none, some, ◌==◌, str_eq, str_eq_iff, ◌<>◌,
  after_prefix-<>, arith,
}
use job_scheduler.Router.Paths.{cut, push, is_one_line, match_resource}

abbrev NoSlash : String → Type 0
NoSlash String.[] = Unit
NoSlash (String.◌∷◌ c s) = (code c == b'/' ≡ false) × NoSlash s

-- A text that stands as one part of a path.
abbrev pub IsPart : String → Type 0
IsPart s = (s ≢ "") × NoSlash s

cut-part : (id : String) → NoSlash id → cut id ≡ (id, none)
unfolding cut
cut-part String.[] h = refl
cut-part (String.◌∷◌ c s) h = rw h.0 (ap (push c) (cut-part s h.1))

cut-<> : (id rest : String) → NoSlash id → cut (id <> ("/" <> rest)) ≡ (id, some rest)
unfolding cut
cut-<> String.[] rest h = refl
cut-<> (String.◌∷◌ c s) rest h = rw h.0 (ap (push c) (cut-<> s rest h.1))

is_empty_of_IsPart : (id : String) → IsPart id → str_eq id "" ≡ false
is_empty_of_IsPart id h = ground (arith, str_eq_iff id "", h.0)

pub match_resource-part :
    (prefix id : String) → IsPart id → match_resource prefix (prefix <> id) ≡ some (id, "")
unfolding match_resource
match_resource-part prefix id h =
    rw (after_prefix-<> prefix id, match_resource, cut-part id h.1, is_empty_of_IsPart id h) refl

pub match_resource-sub :
    (prefix id sub : String)
    → IsPart id
    → str_eq sub "" ≡ false
    → is_one_line sub ≡ true
    → match_resource prefix (prefix <> (id <> ("/" <> sub))) ≡ some (id, sub)
unfolding match_resource
match_resource-sub prefix id sub h given line =
    rw
      (
        after_prefix-<> prefix (id <> ("/" <> sub)),
        match_resource,
        cut-<> id sub h.1,
        is_empty_of_IsPart id h,
        given,
        line,
      )
      refl
