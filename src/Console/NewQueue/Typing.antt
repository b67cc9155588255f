-- ===== src/Console/NewQueue/Typing.antt =====
-- The slug of a new queue, after any sequence of edits of the form.
use job_scheduler.Prelude.{
  ◌≡◌, refl, sym, ap, ◌∙◌, String, true, false, Option, none, some, List, [], ◌∷◌, str_eq,
  if◌then◌else◌, Bool-cases, inl, inr, Option-cases,
}
use job_scheduler.Json.{Js}
use job_scheduler.Console.Data.{Project}
use job_scheduler.Console.Format.{slugify_name}
use job_scheduler.Console.NewQueue.{
  QueueForm, initial, followed, type_name, type_slug, choose_project, type_concurrency,
  type_priority, follow_projects,
}

pub data Edit : Type 0 where
  name slug project concurrency priority : String → Edit

abbrev edit : Js → List Project → Edit → QueueForm → QueueForm
edit js projects (name s) f = type_name js s f
edit js projects (slug s) f = type_slug js s f
edit js projects (project s) f = choose_project projects s f
edit js projects (concurrency s) f = type_concurrency s f
edit js projects (priority s) f = type_priority s f

-- The form after a sequence of edits.
abbrev pub edited : Js → List Project → List Edit → QueueForm → QueueForm
edited js projects [] f = f
edited js projects (e ∷ es) f = edited js projects es (edit js projects e f)

abbrev or_else : Option String → Option String → Option String
or_else none own = own
or_else (some s) own = some s

abbrev slug_of : Edit → Option String
slug_of (slug s) = some s
slug_of _ = none

abbrev name_of : Edit → Option String
name_of (name s) = if str_eq s "" then none else some s
name_of _ = none

-- The last slug that was typed, and the last name that is not empty.
abbrev pub last_slug : List Edit → Option String
last_slug [] = none
last_slug (e ∷ es) = or_else (last_slug es) (slug_of e)

abbrev pub last_name : List Edit → Option String
last_name [] = none
last_name (e ∷ es) = or_else (last_name es) (name_of e)

abbrev or_text : Option String → String → String
or_text none s = s
or_text (some t) s = t

abbrev slug_by_name : Js → Option String → String → String
slug_by_name js none s = s
slug_by_name js (some t) s = slugify_name js t

kept_by_project :
    (projects : List Project) (id : String) (f : QueueForm)
    → ((choose_project projects id f).slug ≡ f.slug)
      × ((choose_project projects id f).slug_touched ≡ f.slug_touched)
unfolding choose_project follow_projects
kept_by_project projects id f = elim (Bool-cases (str_eq id "")) [
  | inl e ↦ rw e (refl, refl)
  | inr e ↦ rw e (refl, refl)
]

edit-touched :
    (js : Js) (projects : List Project) (e : Edit) (f : QueueForm)
    → f.slug_touched ≡ true
    → ((edit js projects e f).slug_touched ≡ true)
      × ((edit js projects e f).slug ≡ or_text (slug_of e) f.slug)
unfolding type_name type_slug type_concurrency type_priority
edit-touched js projects (name s) f h = rw h (refl, refl)
edit-touched js projects (slug s) f h = (refl, refl)
edit-touched js projects (project s) f h =
    let (same, touched) = kept_by_project projects s f in (touched ∙ h, same)
edit-touched js projects (concurrency s) f h = (h, refl)
edit-touched js projects (priority s) f h = (h, refl)

or_text-or_else :
    (later own : Option String) (s : String)
    → or_text (or_else later own) s ≡ or_text later (or_text own s)
or_text-or_else none own s = refl
or_text-or_else (some t) own s = refl

edited-touched :
    (js : Js) (projects : List Project) (es : List Edit) (f : QueueForm)
    → f.slug_touched ≡ true
    → (edited js projects es f).slug ≡ or_text (last_slug es) f.slug
edited-touched js projects [] f h = refl
edited-touched js projects (e ∷ es) f h =
    let (touched, own) = edit-touched js projects e f h in
    edited-touched js projects es (edit js projects e f) touched
    ∙ ap (or_text (last_slug es)) own
    ∙ sym (or_text-or_else (last_slug es) (slug_of e) f.slug)

-- The slug that the edits say: the last that was typed, else that of the last name, else `s`.
abbrev pub intended : Js → List Edit → String → String
intended js es s = or_text (last_slug es) (slug_by_name js (last_name es) s)

slug_by_name-or_else :
    (js : Js) (later own : Option String) (s : String)
    → slug_by_name js (or_else later own) s ≡ slug_by_name js later (slug_by_name js own s)
slug_by_name-or_else js none own s = refl
slug_by_name-or_else js (some t) own s = refl

typed_slug :
    (js : Js) (es : List Edit) (s t : String)
    → or_text (last_slug es) s
      ≡ or_text (or_else (last_slug es) (some s)) (slug_by_name js (last_name es) t)
typed_slug js es s t = elim (Option-cases (last_slug es)) [
  | inl e ↦ rw e refl
  | inr (u, e) ↦ rw e refl
]

or_else-none : (o : Option String) → or_else o none ≡ o
or_else-none none = refl
or_else-none (some s) = refl

followed_name :
    (js : Js) (s t : String) → followed js false s t ≡ slug_by_name js (name_of (name s)) t
followed_name js s t = elim (Bool-cases (str_eq s "")) [ inl e ↦ rw e refl | inr e ↦ rw e refl ]

edited-untouched :
    (js : Js) (projects : List Project) (es : List Edit) (f : QueueForm)
    → f.slug_touched ≡ false
    → (edited js projects es f).slug ≡ intended js es f.slug
unfolding type_name type_slug type_concurrency type_priority
edited-untouched js projects [] f h = refl
edited-untouched js projects (slug s ∷ es) f h =
    edited-touched js projects es (edit js projects (slug s) f) refl
    ∙ rw (or_else-none (last_name es)) (typed_slug js es s f.slug)
edited-untouched js projects (name s ∷ es) f h =
    edited-untouched js projects es (edit js projects (name s) f) h
    ∙ rw
        (
          or_else-none (last_slug es),
          slug_by_name-or_else js (last_name es) (name_of (name s)) f.slug,
          h,
        )
        (ap (intended js es) (followed_name js s f.slug))
edited-untouched js projects (project s ∷ es) f h =
    let (same, touched) = kept_by_project projects s f in
    edited-untouched js projects es (edit js projects (project s) f) (touched ∙ h)
    ∙ rw (or_else-none (last_slug es), or_else-none (last_name es)) (ap (intended js es) same)
edited-untouched js projects (concurrency s ∷ es) f h =
    edited-untouched js projects es (edit js projects (concurrency s) f) h
    ∙ rw (or_else-none (last_slug es), or_else-none (last_name es)) refl
edited-untouched js projects (priority s ∷ es) f h =
    edited-untouched js projects es (edit js projects (priority s) f) h
    ∙ rw (or_else-none (last_slug es), or_else-none (last_name es)) refl

-- After any edits of a new form, its slug is the last one that was typed; if none was, the slug of
-- the last name that is not empty; if there was none either, it is empty.
pub edited-intended :
    (js : Js) (projects : List Project) (es : List Edit)
    → (edited js projects es (initial projects)).slug ≡ intended js es ""
unfolding initial
edited-intended js projects es = edited-untouched js projects es (initial projects) refl
