-- ===== src/Entry/Guards.antt =====
-- Who may run a tick or the setup through their routes.
use job_scheduler.Prelude.{
  ap, ◌∙◌, ◌≡◌, ◌≢◌, refl, String, true, Option, none, some, str_eq_iff, ◌<>◌, arith,
}
use job_scheduler.Db.{Db}
use job_scheduler.Auth.{or_else}
use job_scheduler.Router.{Server}
use job_scheduler.Entry.{is_forbidden, forbidden, cron_worker, setup}

is_forbidden_of_ne :
    (secret : String) (auth : Option String)
    → secret ≢ ""
    → auth ≢ some ("Bearer " <> secret)
    → is_forbidden secret auth ≡ true
unfolding is_forbidden
is_forbidden_of_ne secret none n m = ground (arith, str_eq_iff secret "")
is_forbidden_of_ne secret (some auth) n m =
    ground (arith, str_eq_iff secret "", str_eq_iff auth ("Bearer " <> secret))

or_else-some : (s d : String) → s ≢ "" → or_else (some s) d ≡ s
or_else-some s d n = ground (arith, str_eq_iff s "")

or_else-ne : (o : Option String) (d : String) → d ≢ "" → or_else o d ≢ ""
or_else-ne none d n = n
or_else-ne (some s) d n = ground (arith, str_eq_iff s "")

-- With a CRON_SECRET that is not empty, both routes answer a request that does not bear the secret
-- they ask for with 403, and change nothing; the setup route asks for SETUP_SECRET where that is set.
-- A SETUP_SECRET without a CRON_SECRET is not covered.
pub routes_forbidden :
    (s : Server) (db : Db) (cron : String) (auth : Option String)
    → s.env.cron_secret ≡ some cron
    → cron ≢ ""
    → (auth ≢ some ("Bearer " <> cron) → cron_worker s auth db ≡ (forbidden, db))
      × (auth ≢ some ("Bearer " <> or_else s.env.setup_secret cron)
          → setup s auth db ≡ (forbidden, db))
unfolding cron_worker setup
routes_forbidden s db cron auth e n =
    let asked : or_else s.env.cron_secret "" ≡ cron =
      ap (λ o. or_else o "") e ∙ or_else-some cron "" n in
    (
      (λ m. rw (asked, is_forbidden_of_ne cron auth n m) refl),
      λ m.
          rw
            (
              asked,
              is_forbidden_of_ne (or_else s.env.setup_secret cron) auth
                  (or_else-ne s.env.setup_secret cron n) m,
            )
            refl,
    )
