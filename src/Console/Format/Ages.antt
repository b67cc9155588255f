-- ===== src/Console/Format/Ages.antt =====
-- The two ways in which the console words an age agree.
use job_scheduler.Prelude.{
  ℕ, ◌/◌, ◌≡◌, refl, ℤ, pos, negsuc, ltb_ℤ, String, arith, inl, inr, true, Option-cases,
}
use job_scheduler.Json.{Js}
use job_scheduler.Console.Format.{
  seconds_since, age_text, age_label, format_relative_time, relative_time,
}

hours : (n : ℕ) → n / 60 / 60 ≡ n / 3600
hours n = omega arith

days : (n : ℕ) → n / 60 / 60 / 24 ≡ n / 86_400
days n = omega arith

minutes_test : (n : ℕ) → ltb_ℤ (pos (n / 60)) (pos 60) ≡ ltb_ℤ (pos n) (pos 3600)
minutes_test n = ground arith

hours_test : (n : ℕ) → ltb_ℤ (pos (n / 60 / 60)) (pos 24) ≡ ltb_ℤ (pos n) (pos 86_400)
hours_test n = ground arith

past_test : (n : ℕ) → ltb_ℤ (negsuc n) (pos 5) ≡ true
past_test n = ground arith

age_text-age_label : (js : Js) (secs : ℤ) → age_text js secs ≡ age_label js secs
unfolding age_text age_label
age_text-age_label js (negsuc n) = rw (past_test n) refl
age_text-age_label js (pos n) = rw (minutes_test n, hours_test n, days n, hours n) refl

-- formatRelativeTime, which computes each unit from the last, and the label of RelativeTime, which
-- computes each from the seconds, give the same text at every time, valid or not.
pub format_relative_time-relative_time :
    (js : Js) (now : ℤ) (ts : String) → format_relative_time js now ts ≡ relative_time js now ts
unfolding format_relative_time relative_time
format_relative_time-relative_time js now ts = elim (Option-cases (js.time_of ts)) [
  | inl e ↦ rw (e, format_relative_time, relative_time) refl
  | inr (t, e) ↦
      rw (e, format_relative_time, relative_time) (age_text-age_label js (seconds_since now t))
]
