-- ===== src/Examples/Logins.antt =====
-- A token for the claims of a user.
use job_scheduler.Prelude.{◌≡◌, refl, ltb, if◌then◌else◌, ◌<>◌, some, none, arith}
use job_scheduler.Auth.{Env, Jose, Claims, secret, claim_fields, sign_token, claims_from_request}
use job_scheduler.Auth.Tokens.{VerifiesOwn, claims_round_trip}
use job_scheduler.Samples.{plain_js}

abbrev pub admin : Claims
admin = record { user_id = "1"; org_id = "org-1"; email = "admin@demo.com"; role = "admin" }

abbrev pub bare : Env
bare = record {
  jwt_secret = none;
  demo_auth = none;
  cron_secret = none;
  setup_secret = none;
  database_url = none;
  postgres_url = none;
}

-- A library with one token.
abbrev pub one_token : Jose
one_token = record {
  sign = λ _ _ _ _. "token";
  verify = λ _ _ now. if ltb now 86_500 then some (claim_fields admin) else none;
}

one_token-VerifiesOwn : VerifiesOwn one_token (claim_fields admin) 100 86_500 (secret bare)
one_token-VerifiesOwn now fresh = (claim_fields admin, ground arith, λ k _ _. refl)

claims_round_trip_example :
    claims_from_request one_token bare plain_js 5000
      (some ("Bearer " <> (sign_token one_token bare 100 admin)))
    ≡ some admin
claims_round_trip_example =
    claims_round_trip one_token bare plain_js 100 5000 admin one_token-VerifiesOwn (omega arith)
