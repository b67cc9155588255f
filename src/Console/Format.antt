-- ===== src/Console/Format.antt =====
-- dashboard/src/lib/format.ts, and `RelativeTime` of dashboard/src/components/ui/CopyId.tsx.
pub mod Slugs
pub mod Ages
use Prim.Native.Char.{Char, code}
use job_scheduler.Prelude.{
  ℕ, zero, suc, ◌+◌, ◌*◌, ◌/◌, ℤ, pos, negsuc, ◌-ℤ◌, ltb_ℤ, String, Bool, true, false, not, Option,
  none, some, List, [], ◌∷◌, ◌==◌, ◌&&◌, ◌||◌, leb, ltb, str_eq, if◌then◌else◌, ◌<>◌, select_one,
}
use job_scheduler.Json.{Json, Js, str, num, obj, arr, get_field, truthy}
use job_scheduler.Http.{Ratio}
use job_scheduler.Console.Data.{Queue, WorkerInfo}

-- Math.floor(n / d) for a positive d; `negsuc n` is -(n + 1).
abbrev floor_div : ℤ → ℕ → ℤ
floor_div (pos n) d = pos (n / d)
floor_div (negsuc n) d = negsuc (n / d)

abbrev shown : Js → ℤ → String
shown js n = js.text_of (num n)

-- `Math.floor((Date.now() - new Date(ts).getTime()) / 1000)`
unfoldable pub seconds_since : ℤ → ℤ → ℤ
seconds_since now then_ = floor_div (now -ℤ then_) 1000

-- formatRelativeTime behind `secs`: minutes, hours and days are each computed from the last.
unfoldable pub age_text : Js → ℤ → String
age_text js secs =
    if ltb_ℤ secs (pos 5)
    then "just now"
    else if ltb_ℤ secs (pos 60)
    then shown js secs <> "s ago"
    else (let mins = floor_div secs 60 in
        if ltb_ℤ mins (pos 60)
        then shown js mins <> "m ago"
        else (let hrs = floor_div mins 60 in
            if ltb_ℤ hrs (pos 24)
            then shown js hrs <> "h ago"
            else (shown js (floor_div hrs 24) <> "d ago")))

-- The `tick` of RelativeTime behind `secs`: each unit is computed from the seconds.
unfoldable pub age_label : Js → ℤ → String
age_label js secs =
    if ltb_ℤ secs (pos 5)
    then "just now"
    else if ltb_ℤ secs (pos 60)
    then shown js secs <> "s ago"
    else if ltb_ℤ secs (pos 3600)
    then shown js (floor_div secs 60) <> "m ago"
    else if ltb_ℤ secs (pos 86_400)
    then shown js (floor_div secs 3600) <> "h ago"
    else (shown js (floor_div secs 86_400) <> "d ago")

-- Comparisons with NaN are false.
unfoldable pub format_relative_time : Js → ℤ → String → String
unfolding age_text seconds_since
format_relative_time js now ts = elim (js.time_of ts) [
  | none ↦ "NaNd ago"
  | some t ↦ age_text js (seconds_since now t)
]

unfoldable pub relative_time : Js → ℤ → String → String
unfolding age_label seconds_since
relative_time js now ts = elim (js.time_of ts) [
  | none ↦ "NaNd ago"
  | some t ↦ age_label js (seconds_since now t)
]

-- `typeof v === "string" ? v : null`
abbrev as_string : Option Json → Option String
as_string (some (str s)) = some s
as_string _ = none

abbrev as_number : Option Json → Option ℤ
as_number (some (num n)) = some n
as_number _ = none

abbrev is_given : Option String → Bool
is_given none = false
is_given (some s) = not (str_eq s "")

abbrev text_of : Option String → String
text_of none = ""
text_of (some s) = s

abbrev with_duration : Js → String → Option ℤ → String
with_duration js type none = type
with_duration js type (some ms) = type <> (" (" <> (shown js ms <> "ms)"))

-- What a payload's fields name, if its type is a text that is not empty.
abbrev typed_name : Js → Option String → Option String → Option ℤ → Option String → String → String
typed_name js type message duration cron fallback =
    if is_given type && is_given message
    then text_of type <> (" — " <> text_of message)
    else if is_given type && is_given cron
    then text_of type <> " (recurring)"
    else if is_given type
    then with_duration js (text_of type) duration
    else fallback

-- The name by the payload, if that is an object; an array has no such fields.
unfoldable pub payload_name : Js → Option Json → Option String → String → String
payload_name js (some (obj fs)) cron fallback =
    typed_name js (as_string (get_field "type" fs)) (as_string (get_field "message" fs))
      (as_number (get_field "duration_ms" fs)) cron fallback
payload_name js _ cron fallback = fallback

unfoldable pub job_display_name : Js → Option String → Option Json → Option String → String → String
unfolding payload_name
job_display_name js key payload cron fallback =
    if is_given key then text_of key else payload_name js payload cron fallback

abbrev name_or : Option String → String → String
name_or none d = d
name_or (some s) d = s

abbrev queue_found : Option Queue → String
queue_found none = "Unknown queue"
queue_found (some q) = q.name

unfoldable pub queue_name : String → List Queue → String
queue_name id queues = queue_found (select_one (λ q. str_eq q.id id) queues)

abbrev worker_found : Option WorkerInfo → String
worker_found none = "Unknown worker"
worker_found (some w) = w.name

unfoldable pub worker_name : String → List WorkerInfo → String
worker_name id workers = worker_found (select_one (λ w. str_eq w.id id) workers)

-- `[a-z0-9]`
abbrev pub is_word : Char → Bool
is_word c = (leb b'a' (code c) && leb (code c) b'z') || (leb b'0' (code c) && leb (code c) b'9')

-- `.replace(/[^a-z0-9]+/g, "-")`; the flag says that the last character was replaced.
unfoldable pub dash_runs : Bool → String → String
dash_runs replaced String.[] = String.[]
dash_runs true (String.◌∷◌ c s) =
    if is_word c then String.◌∷◌ c (dash_runs false s) else dash_runs true s
dash_runs false (String.◌∷◌ c s) =
    if is_word c then String.◌∷◌ c (dash_runs false s) else "-" <> dash_runs true s

abbrev pub is_dash : Char → Bool
is_dash c = code c == b'-'

-- `.replace(/^-+/, "")`
unfoldable pub strip_start : String → String
strip_start String.[] = String.[]
strip_start (String.◌∷◌ c s) =
    let rest = strip_start s in if is_dash c then rest else String.◌∷◌ c s

abbrev keep : Char → String → String
keep c rest = if is_dash c && str_eq rest "" then "" else String.◌∷◌ c rest

-- `.replace(/-+$/, "")`
unfoldable pub strip_end : String → String
strip_end String.[] = String.[]
strip_end (String.◌∷◌ c s) = keep c (strip_end s)

unfoldable pub slugify_name : Js → String → String
unfolding dash_runs strip_start strip_end
slugify_name js name = strip_end (strip_start (dash_runs false (js.to_lower (js.trim name))))

-- Characters: the code's texts here are ids, of ASCII characters.
unfoldable pub text_length : String → ℕ
text_length String.[] = 0
text_length (String.◌∷◌ c s) = suc (text_length s)

unfoldable pub take_text : ℕ → String → String
take_text zero s = ""
take_text (suc n) String.[] = ""
take_text (suc n) (String.◌∷◌ c s) = String.◌∷◌ c (take_text n s)

unfoldable pub truncate_id : ℕ → String → String
unfolding text_length take_text
truncate_id len id = if ltb len (text_length id) then take_text len id <> "…" else id

unfoldable pub format_duration : Js → Option ℤ → String
format_duration js none = "—"
format_duration js (some ms) =
    if ltb_ℤ ms (pos 1000) then shown js ms <> "ms" else js.to_fixed ms 1000 2 <> "s"

-- `rate * 100`
abbrev hundredfold : ℤ → ℤ
hundredfold (pos n) = pos (n * 100)
hundredfold (negsuc n) = negsuc (n * 100 + 99)

unfoldable pub format_percent : Js → Ratio → String
format_percent js rate = js.to_fixed (hundredfold rate.numerator) rate.denominator 1 <> "%"
