-- ===== src/Examples/Requests.antt =====
-- Witnesses for the handlers of requests.
use job_scheduler.Prelude.{
  update, not, ◌&&◌, select, String, true, insert_sorted, length, ◌≤◌, ◌⊎◌, Memᴰ, sort_by, ◌≡◌,
  refl, none, [], ◌∷◌, ◌==◌,
}
use job_scheduler.Json.{Fields, obj, field, str, end}
use job_scheduler.Db.{Job}
use job_scheduler.Db.Client.{is_queue_in, is_job_in}
use job_scheduler.Db.Sql.{moment, ok}
use job_scheduler.Http.{Body, json}
use job_scheduler.Router.Submit.{submit_job}
use job_scheduler.Router.Submit.Keys.{KeysOnce, submit-KeysOnce}
use job_scheduler.Router.Listing.{status_text, is_listed, is_newer, listing}
use job_scheduler.Router.Listing.Newest.{listing_newest}
use job_scheduler.Router.Queues.{is_addressed, pause_queue}
use job_scheduler.Router.Queues.Pausing.{pause_hides}
use job_scheduler.Worker.Tick.{select_unpaused}
use job_scheduler.Router.Retry.{reset}
use job_scheduler.Samples.{calm, plain_client, low, dead, shop}

abbrev again : Fields
again = field "idempotency_key" (str "welcome-1") (field "payload" (str "x") end)

submit-KeysOnce_example :
    KeysOnce (submit_job calm plain_client "org-1" "queue-10" (ok (obj again)) shop).1.jobs
submit-KeysOnce_example =
    submit-KeysOnce calm plain_client "org-1" "queue-10" (ok (obj again)) shop
      ((refl, tt), (tt, tt))

abbrev revived : Job
revived = reset 101_000 dead

listing_newest_example :
    let rows = listing 1 "queued" none shop in
    (length rows ≤ 100)
    × (Memᴰ low rows
        → Memᴰ low shop.jobs
          × (is_job_in 1 shop low ≡ true)
          × ((◌≡◌ {A = String} "queued" "") ⊎ (status_text low.status ≡ "queued")))
    × (Memᴰ low shop.jobs
        → is_listed 1 "queued" none shop low ≡ true
        → Memᴰ low rows ⊎ ((k : Job) → Memᴰ k rows → low.created_at ≤ k.created_at))
listing_newest_example = listing_newest 1 "queued" none shop low

-- The filter by status leaves the dead job out.
lists_low : listing 1 "queued" none shop ≡ low ∷ []
unfolding listing is_listed is_job_in is_newer sort_by insert_sorted
lists_low = refl

pause_hides_example :
    let after = pause_queue calm plain_client "org-1" "queue-10" shop in
    (after.0 ≡ ok (json Body.nothing 204))
    × ((select_unpaused (moment calm shop) after.1).0
        ≡ ok (select (λ q. not q.paused && not (is_addressed 10 1 shop q)) shop.queues))
    × (after.1.queues
        ≡ update
            (λ q. (q.id == 10) && is_queue_in 1 shop q)
            (λ q. record q { paused = true; updated_at = calm.clock shop.statements })
            shop.queues)
pause_hides_example =
    pause_hides calm plain_client shop "org-1" "queue-10" 10 1 (moment calm shop) (refl, tt) refl
      refl
