-- ===== src/Router/Login.antt =====
-- `POST auth/login` of dashboard/src/server/router.ts, and dashboard/src/server/db.ts.
pub mod Session
use job_scheduler.Prelude.{
  ℕ, String, Bool, true, false, Option, none, some, ◌||◌, str_eq, if◌then◌else◌, inl, inr, ◌⊎◌,
}
use job_scheduler.Json.{Json, Js, member, read_member, text_or_empty}
use job_scheduler.Db.{User}
use job_scheduler.Db.Client.{Client}
use job_scheduler.Db.Sql.{World, Result, ok, throws, Action, statement, pure, lift, ◌>>=◌, ◌>>◌}
use job_scheduler.Auth.{Env, Jose, Claims, or_else, demo_auth_enabled, sign_token}
use job_scheduler.Http.{Response, Body, Profile, json, error, unauthorized}
use job_scheduler.Setup.{select_user, resolve_demo_user}
use job_scheduler.Router.{Server}
use job_scheduler.Router.Submit.{read}

abbrev pub no_database : String
no_database = "DATABASE_URL is not configured. Add Vercel Postgres (Neon) to the project."

-- `process.env.DATABASE_URL || process.env.POSTGRES_URL`, where the empty text counts as none.
unfoldable pub get_url : Env → Result String
get_url env =
    let url = or_else env.database_url (or_else env.postgres_url "") in
    if str_eq url "" then throws no_database else ok url

-- `getSql()`: building the client sends nothing.
unfoldable pub get_sql : Env → Result (Unit {0})
unfolding get_url
get_sql env = elim (get_url env) [ throws message ↦ throws message | ok url ↦ ok tt ]

abbrev pub profile_of : User → Profile
profile_of u = record {
  id = u.id;
  org_id = u.org_id;
  email = u.email;
  name = u.name;
  role = u.role;
}

abbrev pub claims_for : Client → User → Claims
claims_for c u = record {
  user_id = c.uuid_text u.id;
  org_id = c.uuid_text u.org_id;
  email = u.email;
  role = u.role;
}

unfoldable pub find_user : Server → String → Action (Option User)
unfolding demo_auth_enabled resolve_demo_user
find_user s email =
    if demo_auth_enabled s.env
    then resolve_demo_user s.world email
    else statement s.world (select_user email)

abbrev pub answer_login : Server → Option User → Action Response
answer_login s none = pure (error "invalid credentials" 401 "UNAUTHORIZED")
answer_login s (some user) = pure (
    json
      (Body.session (sign_token s.jose s.env s.seconds (claims_for s.client user))
        (profile_of user))
      200)

unfoldable pub login_with : Server → String → String → Action Response
unfolding find_user sign_token get_sql
login_with s email password =
    if str_eq email "" || str_eq password ""
    then pure (error "email and password required" 422 "ERROR")
    else (lift (get_sql s.env) >> (find_user s email >>= answer_login s))

unfoldable pub login : Server → Result Json → Action Response
unfolding login_with member
login s request = do
  body ← lift request
  email ← lift (read (read_member s.world.js "email" body))
  login_with s (s.world.js.trim (text_or_empty s.world.js email))
      (text_or_empty s.world.js (member "password" body))
