-- ===== src/Console/Session/Entering.antt =====
-- Signing in opens the console, and signing out closes it.
use job_scheduler.Prelude.{◌≡◌, refl, ◌≢◌, String, false, some, str_eq, str_eq_iff, inl, arith}
use job_scheduler.Json.{Json, Js, str, read_member, to_text}
use job_scheduler.Console.Api.{Browser, replied, has_token, receive}
use job_scheduler.Console.Session.{
  LoginForm, handle_login, guard, ready, replaced_by, sign_out, settle_login, enter,
}

-- The same browser on another page.
abbrev pub on : String → Browser → Browser
on path b = record b { pathname = path }

differ : (s t : String) → s ≢ t → str_eq s t ≡ false
differ s t n = ground (arith, str_eq_iff s t, n)

-- After a sign-in that is answered with a token, the form shows no error and the console stands on
-- its first page; a browser with the token is then shown every page but the login, and after signing
-- out only the login.
pub handle_login-Access :
    (js : Js) (f : LoginForm) (answer : Json) (b : Browser) (token path : String)
    → read_member js "token" answer ≡ inl (some (str token))
    → token ≢ ""
    → path ≢ "/login"
    → let (after, inside) = handle_login js f (replied 200 (some answer)) b in
      (after ≡ record f { loading = false; error = "" })
      × (inside.pathname ≡ "/")
      × (guard (on path inside) ≡ ready)
      × (guard (on "/login" inside) ≡ replaced_by "/")
      × (guard (on path (sign_out inside)) ≡ replaced_by "/login")
      × (guard (sign_out inside) ≡ ready)
unfolding handle_login receive settle_login enter to_text guard has_token sign_out
handle_login-Access js f answer b token path h given elsewhere =
    rw (h, guard, has_token, differ token "" given, differ path "/login" elsewhere)
      (refl, refl, refl, refl, refl, refl)
