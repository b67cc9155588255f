-- ===== src/Json.antt =====
-- JSON values as the handlers of dashboard/src/server read them: job payloads and request bodies.
-- Numbers are integers. The parts of the JavaScript runtime that the code calls on such values
-- (JSON.parse, the conversions String(v) and Number(text), the text of a TypeError) are a record.
use job_scheduler.Prelude.{
  ◌⊎◌, inl, inr, ℕ, zero, ℤ, pos, String, Bool, true, false, not, Option, none, some, List,
  if◌then◌else◌, str_eq,
}

-- An object has each key once, as JSON.parse and jsonb leave it.
mutual
  pub data Json : Type 0 where
    null : Json
    bool : Bool → Json
    num : ℤ → Json
    str : String → Json
    arr : Items → Json
    obj : Fields → Json

  pub data Items : Type 0 where
    nil : Items
    item : Json → Items → Items

  pub data Fields : Type 0 where
    end : Fields
    field : String → Json → Fields → Fields

pub record Js : Type 0 where
  -- JSON.parse, `none` where it throws
  pub json_parse : String → Option Json
  -- the message of that exception
  pub syntax_error : String → String
  -- String(v) of a value
  pub text_of : Json → String
  -- Number(s) of a text, `none` for NaN
  pub number_of_text : String → Option ℤ
  -- the message of the TypeError that String(v) and Number(v) throw for an array or an object,
  -- `none` where they throw nothing
  pub primitive_error : Json → Option String
  -- the message of reading a field of null
  pub null_error : String → String
  -- s.trim()
  pub trim : String → String
  -- new Date(t).toISOString()
  pub to_iso_string : ℕ → String
  -- new Date(s).getTime(), `none` for NaN
  pub time_of : String → Option ℤ
  -- s.toLowerCase()
  pub to_lower : String → String
  -- s.replace(/\s+/g, "_") and s.split(/\s+/)
  pub spaces_to_underscores : String → String
  pub words : String → List String
  -- parseInt(s, 10), `none` for NaN
  pub parse_int : String → Option ℤ
  -- JSON.stringify(v) and JSON.stringify(v, null, 2)
  pub json_text : Json → String
  pub json_pretty : Json → String
  -- (n / d).toFixed(digits)
  pub to_fixed : ℤ → ℕ → ℕ → String
  -- new URLSearchParams(pairs).toString()
  pub query_text : List (String × String) → String

abbrev pub get_field : String → Fields → Option Json
get_field k end = none
get_field k (field j v rest) = let later = get_field k rest in if str_eq j k then some v else later

-- `v.k` on a value that is not null; `none` is undefined.
unfoldable pub member : String → Json → Option Json
member k (obj fields) = get_field k fields
member k _ = none

unfoldable pub is_nonzero : ℤ → Bool
is_nonzero (pos zero) = false
is_nonzero _ = true

-- Is a value true in a condition? `none` is undefined.
unfoldable pub truthy : Option Json → Bool
unfolding is_nonzero
truthy none = false
truthy (some null) = false
truthy (some (bool b)) = b
truthy (some (num n)) = is_nonzero n
truthy (some (str s)) = not (str_eq s "")
truthy (some (arr _)) = true
truthy (some (obj _)) = true

-- The exception of String(v) or Number(v); only arrays and objects raise one.
abbrev pub conversion_error : Js → Option Json → Option String
conversion_error js (some (arr xs)) = js.primitive_error (arr xs)
conversion_error js (some (obj fs)) = js.primitive_error (obj fs)
conversion_error js _ = none

-- Number(v), `none` for NaN.
unfoldable pub to_number : Js → Option Json → Option ℤ
to_number js none = none
to_number js (some null) = some (pos 0)
to_number js (some (bool true)) = some (pos 1)
to_number js (some (bool false)) = some (pos 0)
to_number js (some (num n)) = some n
to_number js (some (str s)) = js.number_of_text s
to_number js (some (arr xs)) = js.number_of_text (js.text_of (arr xs))
to_number js (some (obj fs)) = js.number_of_text (js.text_of (obj fs))

-- `Number(v) || d`: NaN and 0 give the default.
unfoldable pub number_or : Js → Option Json → ℤ → ℤ
unfolding to_number is_nonzero
number_or js v d = elim (to_number js v) [ none ↦ d | some n ↦ if is_nonzero n then n else d ]

-- `v.k`, which throws at null.
unfoldable pub read_member : Js → String → Json → Option Json ⊎ String
unfolding member
read_member js k null = inr (js.null_error k)
read_member js k v = inl (member k v)

-- String(v) of a value that may be undefined.
unfoldable pub to_text : Js → Option Json → String
to_text js none = "undefined"
to_text js (some (str s)) = s
to_text js (some v) = js.text_of v

-- String(v || "")
unfoldable pub text_or_empty : Js → Option Json → String
unfolding truthy to_text
text_or_empty js v = if truthy v then to_text js v else ""
