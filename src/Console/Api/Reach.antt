-- ===== src/Console/Api/Reach.antt =====
-- Which handlers the console's requests reach.
use job_scheduler.Prelude.{
  ◌≡◌, refl, ◌∙◌, String, Bool, Bool-cases, inl, inr, ap, sym, str_eq_iff, ◌&&◌, true, false, none,
  some, [], ◌<>◌, str_eq, after_prefix, after_prefix-<>,
}
use job_scheduler.Json.{Json, Js}
use job_scheduler.Router.Paths.{
  Endpoint, route, match_resource, is_one_line, route_jobs, or_queue, or_job, route_last,
  route_queue, route_job,
}
use job_scheduler.Router.Paths.Matching.{IsPart, match_resource-part, match_resource-sub}
use job_scheduler.Console.Api
use job_scheduler.Console.Api.{Call}

-- The handler of a call: the path behind /api/, as the server joins its segments again.
unfoldable pub reached : Call → Endpoint
unfolding route after_prefix
reached c = elim (after_prefix "/" c.path) [ none ↦ Endpoint.unknown | some p ↦ route c.method p ]

-- A text that begins otherwise.
prefix-ne : (p x t : String) → after_prefix p t ≡ none → str_eq (p <> x) t ≡ false
prefix-ne p x t h = elim (Bool-cases (str_eq (p <> x) t)) [
  | inr e ↦ e
  | inl e ↦
      let found : after_prefix p t ≡ some x =
        ap (after_prefix p) (sym ((str_eq_iff (p <> x) t).0 e)) ∙ after_prefix-<> p x in
      cc (h, found)
]

and_false : (b : Bool) → (b && false) ≡ false
and_false true = refl
and_false false = refl

route-queues :
    (method x : String)
    → route method ("queues/" <> x)
      ≡ or_queue method
          (match_resource "queues/" ("queues/" <> x))
          (route_jobs method ("queues/" <> x))
unfolding route
route-queues method x =
    rw
      (
        prefix-ne "queues/" x "auth/login" refl,
        prefix-ne "queues/" x "projects" refl,
        prefix-ne "queues/" x "queues" refl,
        and_false (str_eq method "POST"),
        and_false (str_eq method "GET"),
      )
      refl

route-jobs :
    (method x : String)
    → route method ("jobs/" <> x)
      ≡ or_job method (match_resource "jobs/" ("jobs/" <> x)) (route_last method ("jobs/" <> x))
unfolding route route_jobs match_resource after_prefix
route-jobs method x =
    rw
      (
        prefix-ne "jobs/" x "auth/login" refl,
        prefix-ne "jobs/" x "projects" refl,
        prefix-ne "jobs/" x "queues" refl,
        prefix-ne "jobs/" x "worker/pulse" refl,
        prefix-ne "jobs/" x "jobs" refl,
        and_false (str_eq method "POST"),
        and_false (str_eq method "GET"),
      )
      refl

reached-queue_sub :
    (method id sub : String)
    → IsPart id
    → str_eq sub "" ≡ false
    → is_one_line sub ≡ true
    → route method ("queues/" <> (id <> ("/" <> sub)))
      ≡ route_queue method id sub (route_jobs method ("queues/" <> (id <> ("/" <> sub))))
reached-queue_sub method id sub h given line =
    route-queues method (id <> ("/" <> sub))
    ∙ ap (λ r. or_queue method r (route_jobs method ("queues/" <> (id <> ("/" <> sub)))))
        (match_resource-sub "queues/" id sub h given line)

reached-queue :
    (method id : String)
    → IsPart id
    → route method ("queues/" <> id)
      ≡ route_queue method id "" (route_jobs method ("queues/" <> id))
reached-queue method id h =
    route-queues method id
    ∙ ap (λ r. or_queue method r (route_jobs method ("queues/" <> id)))
        (match_resource-part "queues/" id h)

reached-job_sub :
    (method id sub : String)
    → IsPart id
    → str_eq sub "" ≡ false
    → is_one_line sub ≡ true
    → route method ("jobs/" <> (id <> ("/" <> sub)))
      ≡ route_job method id sub (route_last method ("jobs/" <> (id <> ("/" <> sub))))
reached-job_sub method id sub h given line =
    route-jobs method (id <> ("/" <> sub))
    ∙ ap (λ r. or_job method r (route_last method ("jobs/" <> (id <> ("/" <> sub)))))
        (match_resource-sub "jobs/" id sub h given line)

reached-job :
    (method id : String)
    → IsPart id
    → route method ("jobs/" <> id) ≡ route_job method id "" (route_last method ("jobs/" <> id))
reached-job method id h =
    route-jobs method id
    ∙ ap (λ r. or_job method r (route_last method ("jobs/" <> id)))
        (match_resource-part "jobs/" id h)

-- For an id that is one part of a path, each request of the console about a queue or a job, but two,
-- reaches the handler of the same name with that id.
pub calls_reach :
    (id : String) (given : Json)
    → IsPart id
    → (reached (Api.get_queue_stats id) ≡ Endpoint.queue_stats id)
      × (reached (Api.pause_queue id) ≡ Endpoint.pause_queue id)
      × (reached (Api.resume_queue id) ≡ Endpoint.resume_queue id)
      × (reached (Api.update_queue id given) ≡ Endpoint.update_queue id)
      × (reached (Api.enqueue_job id given) ≡ Endpoint.submit_job id)
      × (reached (Api.get_job id) ≡ Endpoint.get_job id)
      × (reached (Api.get_job_executions id) ≡ Endpoint.job_executions id)
      × (reached (Api.get_job_logs id) ≡ Endpoint.job_logs id)
      × (reached (Api.retry_job id) ≡ Endpoint.retry_job id)
unfolding reached route_queue route_job Api.get_queue_stats Api.pause_queue Api.resume_queue
    Api.update_queue Api.enqueue_job Api.get_job Api.get_job_executions Api.get_job_logs
    Api.retry_job
calls_reach id given h = (
  reached-queue_sub "GET" id "stats" h refl refl,
  reached-queue_sub "POST" id "pause" h refl refl,
  reached-queue_sub "POST" id "resume" h refl refl,
  reached-queue "PUT" id h,
  reached-queue_sub "POST" id "jobs" h refl refl,
  reached-job "GET" id h,
  reached-job_sub "GET" id "executions" h refl refl,
  reached-job_sub "GET" id "logs" h refl refl,
  reached-job_sub "POST" id "retry" h refl refl,
)

route_jobs-lost : (x : String) → route_jobs "GET" ("queues/" <> x) ≡ Endpoint.unknown
unfolding route_jobs route_last match_resource after_prefix
route_jobs-lost x =
    rw
      (
        prefix-ne "queues/" x "worker/pulse" refl,
        prefix-ne "queues/" x "jobs" refl,
        prefix-ne "queues/" x "workers" refl,
        prefix-ne "queues/" x "dlq" refl,
      )
      refl

-- The two others, one queue and the jobs of one queue, reach no handler.
pub calls_lost :
    (js : Js) (id : String)
    → IsPart id
    → js.query_text [] ≡ ""
    → (reached (Api.get_queue id) ≡ Endpoint.unknown)
      × (reached (Api.list_queue_jobs js id []) ≡ Endpoint.unknown)
unfolding reached route_queue Api.get_queue Api.list_queue_jobs
calls_lost js id h plain = (
  reached-queue "GET" id h ∙ route_jobs-lost id,
  rw plain (reached-queue_sub "GET" id "jobs" h refl refl ∙ route_jobs-lost (id <> "/jobs")),
)
