-- ===== src/Console/Pages/Lists.antt =====
-- The rows of the lists of dashboard/src/app: the jobs (jobs/JobsExplorer.tsx), the queues
-- (queues/QueuesView.tsx), the dead letters (dlq/page.tsx) and the tables of the overview (page.tsx).
use job_scheduler.Prelude.{
  ℕ, ℤ, pos, zero, String, Bool, false, Option, none, some, List, [], map, take, str_eq,
  if◌then◌else◌, ◌<>◌, select_one,
}
use job_scheduler.Json.{Js, num}
use job_scheduler.Http.{Ratio}
use job_scheduler.Console.Data.{Job, Queue, QueueStats, WorkerInfo, DlqItem, Page}
use job_scheduler.Console.Format.{job_display_name, queue_name, relative_time}
use job_scheduler.Console.Explorer.{Explorer, shown_jobs}
use job_scheduler.Console.QueueDrawer.{percent}
use job_scheduler.Console.Overview.{DlqPage}
use job_scheduler.Console.Pages.{
  Fetched, Listing, branches, Chip, chip, if_given, items_of, seen_label,
}

abbrev page_items : {A : Type 0} → Option (Page A) → List A
page_items none = []
page_items (some page) = page.items

abbrev number_text : Js → ℕ → String
number_text js n = js.text_of (num (pos n))

pub record JobRow : Type 0 where
  pub id : String
  pub name : String
  pub chip : Chip
  pub queue : String
  pub priority : ℤ
  pub attempts : String
  pub created : String

unfoldable pub job_line : Js → ℤ → List Queue → Job → JobRow
unfolding job_display_name chip queue_name relative_time
job_line js now queues j = record {
  id = j.id;
  name = job_display_name js j.idempotency_key (some j.payload) j.cron_expr "Unnamed job";
  chip = chip js j.status (str_eq j.status "running");
  queue = queue_name j.queue_id queues;
  priority = j.priority;
  attempts = number_text js j.attempts <> ("/" <> js.text_of (num j.max_attempts));
  created = relative_time js now j.created_at;
}

unfoldable pub jobs_page : Js → ℤ → List Queue → Explorer → Fetched (Page Job) → Listing JobRow
unfolding job_line shown_jobs
jobs_page js now queues e f =
    branches f.error f.is_loading (shown_jobs e.status_filters (page_items f.data_of))
      (job_line js now queues)

pub record QueueRow : Type 0 where
  pub name : String
  pub slug : String
  pub depth : ℕ
  -- the part of the bar that is filled, in percent
  pub filled : Ratio
  pub concurrency : String
  pub last_hour : String
  pub chip : Chip

abbrev found_stats : String → Option (List QueueStats) → Option QueueStats
found_stats id none = none
found_stats id (some stats) = select_one (λ s. str_eq s.queue_id id) stats

abbrev depth_of : Option QueueStats → Option ℕ
depth_of none = none
depth_of (some s) = some s.depth

abbrev or_none : Option ℕ → ℕ
or_none none = 0
or_none (some n) = n

abbrev hour_of : Js → Option QueueStats → String
hour_of js none = "—"
hour_of js (some s) = number_text js s.throughput_1h

-- `limit ? `${depth}/${limit}` : "∞"`, for `limit = q.concurrency_limit ?? 0`
unfoldable pub limit_label : Js → ℕ → Option ℤ → String
limit_label js depth none = "∞"
limit_label js depth (some (pos zero)) = "∞"
limit_label js depth (some limit) = number_text js depth <> ("/" <> js.text_of (num limit))

abbrev paused_chip : Js → Bool → Chip
paused_chip js is_paused = chip js (if is_paused then "paused" else "active") false

unfoldable pub queue_line : Js → Option (List QueueStats) → Queue → QueueRow
unfolding percent limit_label chip
queue_line js stats q =
    let depth = depth_of (found_stats q.id stats) in
    record {
      name = q.name;
      slug = q.slug;
      depth = or_none depth;
      filled = percent depth q;
      concurrency = limit_label js (or_none depth) q.concurrency_limit;
      last_hour = hour_of js (found_stats q.id stats);
      chip = paused_chip js q.is_paused;
    }

-- The message of an error goes on with an advice.
abbrev advised : Option String → Option String
advised none = none
advised (some message) = some (message <> ". Check API connectivity and sign in again.")

unfoldable pub queues_page : Js → Option (List QueueStats) → Fetched (Page Queue) → Listing QueueRow
unfolding queue_line
queues_page js stats f =
    branches (advised f.error) f.is_loading (page_items f.data_of) (queue_line js stats)

pub record DeadLetterCard : Type 0 where
  pub name : String
  pub queue : String
  pub reason : Option String
  pub attempts : ℕ
  pub failed : String
  pub payload : String
  pub retry_label : String
  pub is_retry_disabled : Bool

abbrev is_retried : Option String → String → Bool
is_retried none id = false
is_retried (some retrying) id = str_eq retrying id

unfoldable pub dead_letter_card : Js → ℤ → DlqPage → DlqItem → DeadLetterCard
unfolding job_display_name relative_time
dead_letter_card js now p d = record {
  name = job_display_name js none (some d.payload) none "Unnamed job";
  queue = d.queue_name;
  reason = if_given d.reason;
  attempts = d.attempts_made;
  failed = relative_time js now d.failed_at;
  payload = js.json_pretty d.payload;
  retry_label = if is_retried p.retrying d.job_id then "Retrying…" else "Retry job";
  is_retry_disabled = is_retried p.retrying d.job_id;
}

unfoldable pub dead_letters_page :
    Js → ℤ → DlqPage → Fetched (Page DlqItem) → Listing DeadLetterCard
unfolding dead_letter_card
dead_letters_page js now p f =
    branches f.error f.is_loading (page_items f.data_of) (dead_letter_card js now p)

-- "Queues at a glance" and "Workers" of the overview.
pub record GlanceRow : Type 0 where
  pub name : String
  pub depth : ℕ
  pub last_hour : ℕ
  pub chip : Chip

abbrev is_paused_of : Option Queue → Bool
is_paused_of none = false
is_paused_of (some q) = q.is_paused

unfoldable pub glance_row : Js → List Queue → QueueStats → GlanceRow
unfolding chip
glance_row js queues s = record {
  name = s.queue_name;
  depth = s.depth;
  last_hour = s.throughput_1h;
  chip = paused_chip js (is_paused_of (select_one (λ q. str_eq q.id s.queue_id) queues));
}

pub record WorkerLine : Type 0 where
  pub name : String
  pub seen : String
  pub in_flight : String
  pub chip : Chip

unfoldable pub worker_line : Js → ℤ → WorkerInfo → WorkerLine
unfolding relative_time chip
worker_line js now w = record {
  name = w.name;
  seen = seen_label js now "No heartbeat" w.last_seen_at;
  in_flight = number_text js w.jobs_in_flight <> " in flight";
  chip = chip js w.status (str_eq w.status "active");
}

unfoldable pub glance : Js → List Queue → Option (List QueueStats) → List GlanceRow
unfolding glance_row
glance js queues stats = map (glance_row js queues) (items_of stats)

unfoldable pub worker_lines : Js → ℤ → Option (List WorkerInfo) → List WorkerLine
unfolding worker_line
worker_lines js now workers = map (worker_line js now) (take 6 (items_of workers))
