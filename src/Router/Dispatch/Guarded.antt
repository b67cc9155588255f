-- ===== src/Router/Dispatch/Guarded.antt =====
-- What the API refuses, and that it then leaves the tables alone.
use job_scheduler.Prelude.{
  ◌≤◌, ◌≡◌, refl, ap, ◌∙◌, ◌≢◌, inl, inr, String, Option, none, some, arith, Bool-cases, ◌||◌,
  str_eq, includes, join_path,
}
use job_scheduler.Json.{Json, read_member, member, text_or_empty}
use job_scheduler.Db.{Db}
use job_scheduler.Db.Sql.{Result, ok, throws, lift, ◌>>=◌}
use job_scheduler.Auth.{Claims, claims_from_request}
use job_scheduler.Http.{Response, error, unauthorized}
use job_scheduler.Router.{Server, Request}
use job_scheduler.Router.Paths.{Endpoint, route}
use job_scheduler.Router.Submit.{read}
use job_scheduler.Router.Login.{login, login_with, get_sql, no_database}
use job_scheduler.Router.Dispatch.{serve_authorized, with_claims, attempt, recover, handle_api}

attempt-authorized :
    (s : Server) (r : Request) (e : Endpoint) (db : Db)
    → e ≢ Endpoint.login
    → attempt s r e db ≡ serve_authorized s r e db
unfolding attempt
attempt-authorized s r Endpoint.login db n = absurd (n refl)
attempt-authorized s r _ db n = refl

-- A request without a valid token, other than a login, is answered 401 and changes nothing.
pub handle_api-unauthorized :
    (s : Server) (r : Request) (db : Db)
    → route r.method (join_path r.path) ≢ Endpoint.login
    → claims_from_request s.jose s.env s.world.js s.seconds r.authorization ≡ none
    → handle_api s r db ≡ (unauthorized, db)
unfolding handle_api serve_authorized
handle_api-unauthorized s r db n h =
    let e = route r.method (join_path r.path) in
    ap (λ p. (recover p.0, p.1))
      (attempt-authorized s r e db n ∙ ap (λ c. with_claims s r e c db) h)

-- An error that a caller sees, with the tables as they were.
abbrev pub Refuses : Db → Response × Db → Type 0
Refuses db (response, after) = (400 ≤ response.status) × (after ≡ db)

no_database-recover : recover (throws no_database) ≡ error no_database 503 "UNAVAILABLE"
unfolding includes
no_database-recover = refl

error-Refuses : (message : String) (db : Db) → Refuses db (recover (throws message), db)
error-Refuses message db = elim (Bool-cases (includes "DATABASE_URL" message)) [
  | inl e ↦ rw e (omega arith, refl)
  | inr e ↦ rw e (omega arith, refl)
]

abbrev recovered : Result Response × Db → Response × Db
recovered (result, after) = (recover result, after)

module _ (s : Server) {message : String} (cut_off : get_sql s.env ≡ throws message) where
  login_with-Refuses :
      (email password : String) (db : Db) → Refuses db (recovered (login_with s email password db))
  unfolding login_with
  login_with-Refuses email password db = elim (Bool-cases (str_eq email "" || str_eq password "")) [
    | inl e ↦ rw (e, login_with) (omega arith, refl)
    | inr e ↦ rw (e, login_with, cut_off) (error-Refuses message db)
  ]

  read-Refuses :
      (body : Json) (r : Result (Option Json)) (db : Db)
      → Refuses db (
          recovered (
            (lift r >>= λ email.
            login_with s
              (s.world.js.trim (text_or_empty s.world.js email))
              (text_or_empty s.world.js (member "password" body)))
              db))
  read-Refuses body (ok email) db = login_with-Refuses _ _ db
  read-Refuses body (throws m) db = error-Refuses m db

  login-Refuses : (request : Result Json) (db : Db) → Refuses db (recovered (login s request db))
  unfolding login
  login-Refuses (throws m) db = error-Refuses m db
  login-Refuses (ok body) db = read-Refuses body (read (read_member s.world.js "email" body)) db

  authorized-Refuses :
      (r : Request) (e : Endpoint) (db : Db) → Refuses db (recovered (serve_authorized s r e db))
  unfolding serve_authorized
  authorized-Refuses r e db =
      case (claims_from_request s.jose s.env s.world.js s.seconds r.authorization)
    where
      case : (c : Option Claims) → Refuses db (recovered (with_claims s r e c db))
      case none = (omega arith, refl)
      case (some c) = rw cut_off (error-Refuses message db)

attempt-Refuses :
    (s : Server) (r : Request) (e : Endpoint) (db : Db)
    → get_sql s.env ≡ throws no_database
    → Refuses db (recovered (attempt s r e db))
unfolding attempt
attempt-Refuses s r Endpoint.login db h = login-Refuses s h r.body db
attempt-Refuses s r e db h = authorized-Refuses s h r e db

-- Where no database is configured, every request is answered with an error and changes nothing.
pub handle_api_without_database :
    (s : Server) (r : Request) (db : Db)
    → get_sql s.env ≡ throws no_database
    → Refuses db (handle_api s r db)
unfolding handle_api
handle_api_without_database s r db h = attempt-Refuses s r (route r.method (join_path r.path)) db h
