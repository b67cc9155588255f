-- ===== src/Console/Submit/Stored.antt =====
-- The row that a submission of the form becomes.
use job_scheduler.Prelude.{
  ◌≡◌, refl, ℤ, pos, ℕ, zero, suc, String, Option, none, some, List, [], ◌∷◌, str_eq, if◌then◌else◌,
  Bool-cases, inl, inr, Option-cases,
}
use job_scheduler.Json.{
  Json, Js, str, num, null, get_field, member, number_or, to_number, is_nonzero,
}
use job_scheduler.Db.Client.{Client}
use job_scheduler.Db.Sql.{Moment, ok}
use job_scheduler.Router.Submit.{nullish, new_job, job_row}
use job_scheduler.Console.Api.{compact}
use job_scheduler.Console.Submit.{SubmitForm, body, given, number}

-- What a number field of the form says: its number, or the default where it has none.
abbrev pub said : Js → String → ℤ → ℤ
said js s d = if str_eq s "" then d else elim (js.parse_int s) [ none ↦ d | some n ↦ n ]

-- What a text field says.
abbrev pub said_text : String → Option String
said_text s = if str_eq s "" then none else some s

abbrev or_later : Option Json → Option Json → Option Json
or_later none later = later
or_later (some v) later = some v

abbrev find_key : String → List (String × Option Json) → Option Json
find_key key [] = none
find_key key ((k, v) ∷ rest) =
    let later = find_key key rest in if str_eq k key then or_later v later else later

get_field-compact :
    (key : String) (ps : List (String × Option Json)) → get_field key (compact ps) ≡ find_key key ps
unfolding compact
get_field-compact key [] = refl
get_field-compact key ((k, some v) ∷ ps) = rw (get_field-compact key ps) refl
get_field-compact key ((k, none) ∷ ps) = elim (Bool-cases (str_eq k key)) [
  | inl e ↦ rw e (get_field-compact key ps)
  | inr e ↦ rw e (get_field-compact key ps)
]

abbrev stored_number : Js → String → Option Json
stored_number js s = (given "" s (number (js.parse_int s))).1

or_later-none : (o : Option Json) → or_later o none ≡ o
or_later-none none = refl
or_later-none (some v) = refl

nullish-number :
    (js : Js) (s : String) (d : ℤ)
    → nullish (or_later (stored_number js s) none) (some (num d)) ≡ some (num (said js s d))
nullish-number js s d = elim (Bool-cases (str_eq s "")) [
  | inl e ↦ rw e refl
  | inr e ↦
      rw e (elim (Option-cases (js.parse_int s)) [ inl h ↦ rw h refl | inr (n, h) ↦ rw h refl ])
]

keep-nonzero : (n : ℤ) → (if is_nonzero n then n else pos 0) ≡ n
unfolding is_nonzero
keep-nonzero (pos zero) = refl
keep-nonzero (pos (suc n)) = refl
keep-nonzero _ = refl

number_or-number :
    (js : Js) (s : String)
    → number_or js (or_later (stored_number js s) none) (pos 0) ≡ said js s (pos 0)
unfolding number_or to_number is_nonzero
number_or-number js s = elim (Bool-cases (str_eq s "")) [
  | inl e ↦ rw e refl
  | inr e ↦ rw e (elim (Option-cases (js.parse_int s)) [
    | inl h ↦ rw h refl
    | inr (n, h) ↦ rw h (keep-nonzero n)
  ])
]

-- The texts that the client takes as parameters of type TEXT.
pub record TakesTexts (c : Client) : Type 0 where
  pub text : (s : String) → c.text_param (some (str s)) ≡ ok (some s)
  pub nothing : c.text_param (some null) ≡ ok none

text_param-said :
    (c : Client) (s : String)
    → TakesTexts c
    → c.text_param (nullish (or_later (given "" s (str s)).1 none) (some null)) ≡ ok (said_text s)
text_param-said c s h = elim (Bool-cases (str_eq s "")) [
  | inl e ↦ rw e h.nothing
  | inr e ↦ rw e (h.text s)
]

-- If the client takes the values that the form says, the row that the API inserts for a submission
-- has the payload, the trimmed name as its idempotency key, the priority (the queue's without one),
-- the attempts (three without a number), the delay and the trimmed schedule that the form says.
pub job_row-said :
    (js : Js) (c : Client) (m : Moment) (f : SubmitForm) (payload : Json) (id : ℕ) (default : ℤ)
    → c.uuid_param f.queue_id ≡ ok id
    → TakesTexts c
    → c.jsonb_param (some payload) ≡ ok (some payload)
    → c.int_param (some (num (said js f.priority default))) ≡ ok (some (said js f.priority default))
    → c.int_param (some (num (said js f.max_attempts (pos 3))))
      ≡ ok (some (said js f.max_attempts (pos 3)))
    → job_row js c f.queue_id default (body js f payload) m
      ≡ ok (
          new_job m id
            (said js f.priority default)
            payload
            (said_text (js.trim f.job_name))
            (said js f.max_attempts (pos 3))
            (said js f.delay_seconds (pos 0))
            (said_text (js.trim f.cron_expr)))
unfolding job_row body member
job_row-said js c m f payload id default hq ht hp hi hm =
    rw
      (
        hq,
        get_field-compact,
        nullish-number js f.priority default,
        hi,
        hp,
        get_field-compact,
        text_param-said c (js.trim f.job_name) ht,
        get_field-compact,
        nullish-number js f.max_attempts (pos 3),
        hm,
        get_field-compact,
        text_param-said c (js.trim f.cron_expr) ht,
        get_field-compact,
        number_or-number js f.delay_seconds,
      )
      refl
