-- ===== src/Auth.antt =====
-- dashboard/src/server/auth.ts: tokens. The library that signs and verifies them is a record, and
-- so are the variables of the process.
pub mod Tokens
use job_scheduler.Prelude.{
  ℕ, suc, ◌+◌, ◌*◌, String, Bool, true, false, not, Option, none, some, after_prefix, ◌==◌, str_eq,
  if◌then◌else◌,
}
use job_scheduler.Json.{Json, Js, Fields, end, field, str, get_field, to_text}

-- process.env; a variable that is not set is `none`.
pub record Env : Type 0 where
  pub jwt_secret : Option String
  pub demo_auth : Option String
  pub cron_secret : Option String
  pub setup_secret : Option String
  pub database_url : Option String
  pub postgres_url : Option String

-- The JWT library: payload, time of issue, time of expiry and key give a token; a token, a key and
-- the time now give its payload, or `none` where verification throws.
pub record Jose : Type 0 where
  pub sign : Fields → ℕ → ℕ → String → String
  pub verify : String → String → ℕ → Option Fields

pub record Claims : Type 0 where
  pub user_id : String
  pub org_id : String
  pub email : String
  pub role : String

-- `v || d` on texts
abbrev pub or_else : Option String → String → String
or_else none d = d
or_else (some s) d = if str_eq s "" then d else s

unfoldable pub secret : Env → String
secret env = or_else env.jwt_secret "vercel-demo-secret-change-me"

abbrev pub claim_fields : Claims → Fields
claim_fields c =
    field "user_id" (str c.user_id)
      (field "org_id" (str c.org_id) (field "email" (str c.email) (field "role" (str c.role) end)))

-- Times in seconds.
unfoldable pub sign_token : Jose → Env → ℕ → Claims → String
unfolding secret
sign_token jose env now c = jose.sign (claim_fields c) now (now + 24 * 3600) (secret env)

abbrev pub claims_of : Js → Fields → Claims
claims_of js payload = record {
  user_id = to_text js (get_field "user_id" payload);
  org_id = to_text js (get_field "org_id" payload);
  email = to_text js (get_field "email" payload);
  role = to_text js (get_field "role" payload);
}

unfoldable pub verify_token : Jose → Env → Js → ℕ → String → Option Claims
unfolding secret
verify_token jose env js now token = elim (jose.verify token (secret env) now) [
  | none ↦ none
  | some payload ↦ some (claims_of js payload)
]

unfoldable pub demo_auth_enabled : Env → Bool
demo_auth_enabled env = elim env.demo_auth [ none ↦ true | some s ↦ not (str_eq s "false") ]

unfoldable pub claims_from_request : Jose → Env → Js → ℕ → Option String → Option Claims
unfolding verify_token after_prefix
claims_from_request jose env js now none = none
claims_from_request jose env js now (some header) = elim (after_prefix "Bearer " header) [
  | none ↦ none
  | some token ↦ verify_token jose env js now token
]
