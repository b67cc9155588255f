-- ===== src/Console/Session.antt =====
-- Signing in and out: dashboard/src/app/login/page.tsx, dashboard/src/components/auth/AuthGuard.tsx and
-- the button of dashboard/src/components/shell/LeftRail.tsx.
pub mod Entering
use job_scheduler.Prelude.{
  String, Bool, true, false, Option, none, some, str_eq, if◌then◌else◌, inl, inr, ◌⊎◌,
}
use job_scheduler.Json.{Json, Js, read_member, to_text}
use job_scheduler.Db.Sql.{Result, ok, throws}
use job_scheduler.Console.Api
use job_scheduler.Console.Api.{Browser, Reply, has_token, set_token, clear_token, receive}

pub record LoginForm : Type 0 where
  pub email : String
  pub password : String
  pub error : String
  pub loading : Bool

abbrev refused : String → LoginForm → LoginForm
refused message f = record f { error = message; loading = false }

-- `setToken(token)`, which makes a text of it, and the way to the first page.
unfoldable pub enter : Js → Option Json → Browser → Browser
unfolding set_token to_text
enter js token b = record (set_token (to_text js token) b) { pathname = "/" }

abbrev pub welcomed : Js → Option Json ⊎ String → LoginForm → Browser → LoginForm × Browser
welcomed js (inl token) f b = (record f { loading = false }, enter js token b)
welcomed js (inr message) f b = (refused message f, b)

-- handleSubmit behind the `await`; `const { token } = …` throws at null.
unfoldable pub settle_login : Js → Result Json × Browser → LoginForm → LoginForm × Browser
unfolding enter
settle_login js (throws message, b) f = (refused message f, b)
settle_login js (ok answer, b) f = welcomed js (read_member js "token" answer) f b

unfoldable pub handle_login : Js → LoginForm → Reply → Browser → LoginForm × Browser
unfolding settle_login receive Api.login
handle_login js f reply b =
    settle_login js (receive js (Api.login (js.trim f.email) f.password).auth reply b)
      (record f { loading = true; error = "" })

-- What the guard's effect does: it shows the page, or goes to another path.
pub data Access : Type 0 where
  ready : Access
  replaced_by : String → Access

unfoldable pub guard : Browser → Access
unfolding has_token
guard b =
    if str_eq b.pathname "/login"
    then if has_token b then replaced_by "/" else ready
    else if has_token b
    then ready
    else replaced_by "/login"

unfoldable pub sign_out : Browser → Browser
unfolding clear_token
sign_out b = record (clear_token b) { pathname = "/login" }
