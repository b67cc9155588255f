-- ===== src/Console/Palette.antt =====
-- dashboard/src/components/ui/CommandPalette.tsx: the commands, how they are ranked, and the keys.
use job_scheduler.Prelude.{
  ℕ, zero, suc, ◌+◌, ℤ, pos, negsuc, ◌+ℤ◌, ◌-ℤ◌, ltb_ℤ, String, Bool, Option, none, some, List, [],
  ◌∷◌, ◌++◌, map, ltb, leb, str_eq, if◌then◌else◌, ◌<>◌, starts_with, includes, length, take,
  select, sort_by,
}
use job_scheduler.Json.{Json, Js}
use job_scheduler.Db.Sql.{Result, ok, throws}
use job_scheduler.Console.Api
use job_scheduler.Console.Api.{Browser, Reply, receive}
use job_scheduler.Console.Data.{Queue, DlqItem}
use job_scheduler.Console.Format.{job_display_name}
use job_scheduler.Console.QueueDrawer.{toggle_call}

pub data Command : Type 0 where
  navigate : String → Command
  toggle_queue : Queue → Command
  retry : String → Command

-- An item without its icon.
pub record CommandItem : Type 0 where
  pub id : String
  pub label : String
  pub section : String
  pub keywords : String
  pub command : Command

-- Ten points for each word of the query that is found.
abbrev word_points : String → List String → ℕ
word_points hay [] = 0
word_points hay (w ∷ ws) = (if includes w hay then 10 else 0) + word_points hay ws

abbrev points : Js → String → String → ℕ
points js q hay =
    if str_eq q ""
    then 1
    else if starts_with q hay
    then 100
    else if includes q hay
    then 50
    else word_points hay (js.words q)

unfoldable pub score : Js → String → CommandItem → ℕ
unfolding includes starts_with
score js query item =
    points js (js.trim (js.to_lower query))
      (js.to_lower (item.label <> (" " <> (item.keywords <> (" " <> item.section)))))

abbrev going : String → String → String → String → CommandItem
going id label keywords path = record {
  id = id;
  label = label;
  section = "Navigate";
  keywords = keywords;
  command = navigate path;
}

abbrev nav : List CommandItem
nav =
    going "nav-overview" "Go to Overview" "home dashboard" "/"
    ∷ going "nav-queues" "Go to Queues" "queues" "/queues"
    ∷ going "nav-jobs" "Go to Jobs" "jobs explorer" "/jobs"
    ∷ going "nav-workers" "Go to Workers" "workers" "/workers"
    ∷ going "nav-dlq" "Go to Dead Letter" "dlq dead letter" "/dlq"
    ∷ record (going "action-submit-job" "Submit job" "enqueue create add job" "/jobs?submit=1") {
      section = "Actions";
    }
    ∷ record (going "action-create-queue" "Create queue" "add queue new" "/queues?create=1") {
      section = "Actions";
    }
    ∷ []

unfoldable pub queue_action : Queue → CommandItem
queue_action q = record {
  id = "pause-" <> q.id;
  label = if q.is_paused then "Resume queue " <> q.name else "Pause queue " <> q.name;
  section = "Queues";
  keywords = q.name <> (" " <> (q.slug <> " pause resume"));
  command = toggle_queue q;
}

abbrev retry_action : String → DlqItem → CommandItem
retry_action name d = record {
  id = "retry-" <> d.job_id;
  label = "Retry " <> (name <> (" (" <> (d.queue_name <> ")")));
  section = "Dead letter";
  keywords = name <> (" " <> (d.queue_name <> " retry dlq"));
  command = retry d.job_id;
}

unfoldable pub dlq_action : Js → DlqItem → CommandItem
unfolding job_display_name
dlq_action js d = retry_action (job_display_name js none (some d.payload) none "Unnamed job") d

unfoldable pub items : Js → List Queue → List DlqItem → List CommandItem
unfolding queue_action dlq_action
items js queues dlq = nav ++ map queue_action queues ++ map (dlq_action js) (take 8 dlq)

-- `{ item, s }`
pub record Scored : Type 0 where
  pub item : CommandItem
  pub s : ℕ

unfoldable pub ranks_higher : Scored → Scored → Bool
ranks_higher a b = leb b.s a.s

unfoldable pub filtered : Js → List CommandItem → String → List CommandItem
unfolding score ranks_higher
filtered js items query =
    map (λ x. x.item)
      (sort_by ranks_higher
        (select (λ x. ltb 0 x.s) (map (λ i. record { item = i; s = score js query i }) items)))

pub record Palette : Type 0 where
  pub query : String
  pub active : ℤ

-- The effects on `[commandOpen]` and on `[query]`.
unfoldable pub follow_open : Bool → Palette → Palette
follow_open is_open p = if is_open then p else record { query = ""; active = pos 0 }

unfoldable pub type_query : String → Palette → Palette
type_query query p = record { query = query; active = pos 0 }

unfoldable pub item_at : ℤ → List CommandItem → Option CommandItem
item_at (negsuc n) shown = none
item_at (pos n) [] = none
item_at (pos zero) (i ∷ rest) = some i
item_at (pos (suc n)) (i ∷ rest) = item_at (pos n) rest

-- What a key does to the palette: it stays open, or closes, or closes and runs a command.
pub data Outcome : Type 0 where
  stays closes : Palette → Outcome
  runs : CommandItem → Outcome

abbrev entered : Palette → Option CommandItem → Outcome
entered p none = stays p
entered p (some item) = runs item

-- `Math.min(a + 1, filtered.length - 1)` and `Math.max(a - 1, 0)`
abbrev down : ℕ → ℤ → ℤ
down n a = if ltb_ℤ (pos n -ℤ pos 1) (a +ℤ pos 1) then pos n -ℤ pos 1 else a +ℤ pos 1

abbrev up : ℤ → ℤ
up a = if ltb_ℤ (a -ℤ pos 1) (pos 0) then pos 0 else a -ℤ pos 1

unfoldable pub press_key : String → List CommandItem → Palette → Outcome
unfolding item_at
press_key key shown p =
    if str_eq key "ArrowDown"
    then stays (record p { active = down (length shown) p.active })
    else if str_eq key "ArrowUp"
    then stays (record p { active = up p.active })
    else if str_eq key "Enter"
    then entered p (item_at p.active shown)
    else if str_eq key "Escape"
    then closes p
    else stays p

-- What a command does: `router.push`, and `mutate` of a key.
pub data Act : Type 0 where
  push revalidate : String → Act

abbrev then_acts : List Act → Result Json × Browser → Result (List Act) × Browser
then_acts acts (throws message, b) = (throws message, b)
then_acts acts (ok _, b) = (ok acts, b)

unfoldable pub run : Js → Command → Reply → Browser → Result (List Act) × Browser
unfolding receive toggle_call Api.retry_job
run js (navigate path) reply b = (ok (push path ∷ []), b)
run js (toggle_queue q) reply b =
    then_acts (revalidate "queues" ∷ []) (receive js (toggle_call q).auth reply b)
run js (retry id) reply b =
    then_acts (revalidate "dlq" ∷ push "/dlq" ∷ []) (receive js (Api.retry_job id).auth reply b)
