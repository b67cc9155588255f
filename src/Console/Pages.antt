-- ===== src/Console/Pages.antt =====
-- What the pages of dashboard/src/app show of what they fetch, without its layout: the answers of the
-- hooks, the chip of a status (dashboard/src/components/ui/StatusChip.tsx), and the page of workers
-- (dashboard/src/app/workers/page.tsx).
pub mod JobDetail
pub mod Lists
use job_scheduler.Prelude.{
  ℕ, ℤ, String, Bool, true, false, Option, none, some, List, [], ◌∷◌, map, ◌||◌, ltb, str_eq,
  if◌then◌else◌,
}
use job_scheduler.Json.{Js}
use job_scheduler.Console.Data.{WorkerInfo}
use job_scheduler.Console.Format.{relative_time}
use job_scheduler.Console.Status.{StatusStyle, get_status_style}

-- What a hook gives: `data`, `isLoading` and `error`, of which the message.
pub record Fetched (A : Type 0) : Type 0 where
  pub data_of : Option A
  pub is_loading : Bool
  pub error : Option String

-- What stands in the place of a list: an error, the skeleton, the remark on an empty list, or rows.
pub data Listing (A : Type 0) : Type 0 where
  failed : String → Listing A
  loading empty : Listing A
  rows : List A → Listing A

abbrev rows_or_empty : {A : Type 0} → List A → Listing A
rows_or_empty [] = empty
rows_or_empty (x ∷ xs) = rows (x ∷ xs)

abbrev pub items_of : {A : Type 0} → Option (List A) → List A
items_of none = []
items_of (some xs) = xs

-- The branches that every page makes, in their order.
abbrev pub branches : {A B : Type 0} → Option String → Bool → List A → (A → B) → Listing B
branches (some message) is_loading xs f = failed message
branches none true xs f = loading
branches none false xs f = rows_or_empty (map f xs)

pub record Chip : Type 0 where
  pub style : StatusStyle
  pub pulses : Bool

unfoldable pub chip : Js → String → Bool → Chip
unfolding get_status_style
chip js status pulse = record {
  style = get_status_style js status;
  pulses = pulse || str_eq status "running" || str_eq status "active";
}

-- A text that is missing or empty is not shown.
abbrev pub if_given : Option String → Option String
if_given none = none
if_given (some s) = if str_eq s "" then none else some s

-- `w.last_seen_at ? <RelativeTime ts={w.last_seen_at} /> : …`
abbrev seen_or : Js → ℤ → String → Option String → String
seen_or js now never none = never
seen_or js now never (some ts) = relative_time js now ts

abbrev pub seen_label : Js → ℤ → String → Option String → String
seen_label js now never ts = seen_or js now never (if_given ts)

pub record WorkerCard : Type 0 where
  pub name : String
  pub chip : Chip
  pub in_flight : ℕ
  pub is_busy : Bool
  pub last_heartbeat : String
  pub registered : String

unfoldable pub worker_card : Js → ℤ → WorkerInfo → WorkerCard
unfolding chip relative_time
worker_card js now w = record {
  name = w.name;
  chip = chip js w.status (str_eq w.status "active");
  in_flight = w.jobs_in_flight;
  is_busy = ltb 0 w.jobs_in_flight;
  last_heartbeat = seen_label js now "—" w.last_seen_at;
  registered = relative_time js now w.created_at;
}

unfoldable pub workers_page : Js → ℤ → Fetched (List WorkerInfo) → Listing WorkerCard
unfolding worker_card
workers_page js now f = branches f.error f.is_loading (items_of f.data_of) (worker_card js now)
