-- ===== src/Examples/Screens.antt =====
-- Witnesses for the console.
use job_scheduler.Prelude.{
  ◌≡◌, ◌≤◌, ◌<◌, ◌&&◌, not, select, refl, String, true, some, none, ◌⊎◌, ne_of_str_eq,
}
use job_scheduler.Json.{Json, null}
use job_scheduler.Db.{Db, empty}
use job_scheduler.Db.Sql.{ok, throws, moment}
use job_scheduler.Http.{Response}
use job_scheduler.Router.Paths.{Endpoint}
use job_scheduler.Router.Paths.Matching.{IsPart}
use job_scheduler.Router.Queues.{pause_queue, is_addressed}
use job_scheduler.Worker.Tick.{select_unpaused}
use job_scheduler.Console.Api
use job_scheduler.Console.Api.{Browser, receive, replied}
use job_scheduler.Console.Api.Reach.{reached, calls_reach}
use job_scheduler.Console.Api.Sessions.{session_after, reply_of, receive_session, pause_misreported}
use job_scheduler.Console.Format.{slugify_name}
use job_scheduler.Console.Format.Slugs.{matches_slug, slugify_name-matches}
use job_scheduler.Samples.{calm, plain_js, plain_client, shop}

abbrev ten : String
ten = "queue-10"

ten-IsPart : IsPart ten
ten-IsPart =
    (ne_of_str_eq ten "" refl, (refl, (refl, (refl, (refl, (refl, (refl, (refl, (refl, tt)))))))))

calls_reach_example :
    (reached (Api.get_queue_stats ten) ≡ Endpoint.queue_stats ten)
    × (reached (Api.pause_queue ten) ≡ Endpoint.pause_queue ten)
    × (reached (Api.resume_queue ten) ≡ Endpoint.resume_queue ten)
    × (reached (Api.update_queue ten null) ≡ Endpoint.update_queue ten)
    × (reached (Api.enqueue_job ten null) ≡ Endpoint.submit_job ten)
    × (reached (Api.get_job ten) ≡ Endpoint.get_job ten)
    × (reached (Api.get_job_executions ten) ≡ Endpoint.job_executions ten)
    × (reached (Api.get_job_logs ten) ≡ Endpoint.job_logs ten)
    × (reached (Api.retry_job ten) ≡ Endpoint.retry_job ten)
calls_reach_example = calls_reach ten null ten-IsPart

abbrev tab : Browser
tab = record { token = some "token"; pathname = "/queues" }

receive_session_example :
    let (result, after) = receive plain_js true (replied 401 none) tab in
    (after ≡ session_after 401 tab) × ((v : Json) → result ≡ ok v → (200 ≤ 401) × (401 < 300))
receive_session_example = receive_session plain_js 401 none tab

pause_misreported_example :
    (response : Response) × (after : Db) × (pause_queue calm plain_client "org-1" ten shop
      ≡ (ok response, after))
    × ((select_unpaused (moment calm empty) after).0
        ≡ ok (select (λ q. not q.paused && not (is_addressed 10 1 shop q)) shop.queues))
    × (receive plain_js (Api.pause_queue ten).auth (reply_of (λ _. null) response) tab
        ≡ (throws (plain_js.syntax_error ""), tab))
pause_misreported_example =
    pause_misreported calm plain_client shop "org-1" ten 10 1 (moment calm empty) (λ _. null) tab
      (refl, tt) refl refl

slugify_name-matches_example :
    (slugify_name plain_js "my  queue!" ≡ "")
    ⊎ (matches_slug true (slugify_name plain_js "my  queue!") ≡ true)
slugify_name-matches_example = slugify_name-matches plain_js "my  queue!"
