-- ===== src/Examples/Entries.antt =====
-- Witnesses for the routes of the cron job and the setup.
use job_scheduler.Prelude.{◌≡◌, ◌≢◌, some, ◌<>◌, ne_of_str_eq, refl}
use job_scheduler.Auth.{or_else}
use job_scheduler.Entry.{cron_worker, setup, forbidden}
use job_scheduler.Entry.Guards.{routes_forbidden}
use job_scheduler.Router.{Server}
use job_scheduler.Samples.{shop}
use job_scheduler.Examples.Api.{server}

abbrev guarded : Server
guarded = record server { env = record server.env { cron_secret = some "s3cret" } }

routes_forbidden_example :
    (some "Bearer guess" ≢ some ("Bearer " <> "s3cret")
      → cron_worker guarded (some "Bearer guess") shop ≡ (forbidden, shop))
    × (some "Bearer guess" ≢ some ("Bearer " <> or_else guarded.env.setup_secret "s3cret")
        → setup guarded (some "Bearer guess") shop ≡ (forbidden, shop))
routes_forbidden_example =
    routes_forbidden guarded shop "s3cret" (some "Bearer guess") refl
      (ne_of_str_eq "s3cret" "" refl)
