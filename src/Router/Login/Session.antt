-- ===== src/Router/Login/Session.antt =====
-- What a login gives its caller.
use job_scheduler.Prelude.{ℕ, ◌+◌, ◌*◌, ◌<◌, ◌≡◌, ap, String, false, some, str_eq, ◌<>◌}
use job_scheduler.Db.{Db, User}
use job_scheduler.Db.Sql.{ok, and_then}
use job_scheduler.Auth.{secret, claim_fields, sign_token, claims_from_request}
use job_scheduler.Auth.Tokens.{VerifiesOwn, claims_round_trip}
use job_scheduler.Http.{Body, json}
use job_scheduler.Router.{Server}
use job_scheduler.Router.Login.{get_sql, find_user, claims_for, answer_login, login_with}

-- Where a database is configured and the e-mail and the password are not empty, a login that finds
-- a user answers 200 with a token and the user's id, organization, e-mail, name and role, and a
-- request that bears the token within 24 hours speaks for that user and the user's organization, if
-- the JWT library verifies its own token.
pub login_session :
    (s : Server) (db after : Db) (email password : String) (u : User) (now : ℕ)
    → get_sql s.env ≡ ok tt
    → str_eq email "" ≡ false
    → str_eq password "" ≡ false
    → find_user s email db ≡ (ok (some u), after)
    → VerifiesOwn s.jose
        (claim_fields (claims_for s.client u))
        s.seconds
        (s.seconds + 24 * 3600)
        (secret s.env)
    → now < s.seconds + 24 * 3600
    → (token : String) × (login_with s email password db ≡ (
      ok (
          json
            (Body.session token (record {
              id = u.id;
              org_id = u.org_id;
              email = u.email;
              name = u.name;
              role = u.role;
            }))
            200),
      after,
    ))
      × (claims_from_request s.jose s.env s.world.js now (some ("Bearer " <> token))
          ≡ some (record {
            user_id = s.client.uuid_text u.id;
            org_id = s.client.uuid_text u.org_id;
            email = u.email;
            role = u.role;
          }))
unfolding login_with
login_session s db after email password u now reached given entered found own fresh = (
  sign_token s.jose s.env s.seconds (claims_for s.client u),
  rw (given, entered, login_with, reached) (ap (λ r. and_then r.0 (answer_login s) r.1) found),
  claims_round_trip s.jose s.env s.world.js s.seconds now (claims_for s.client u) own fresh,
)
