-- ===== src/Console/Status/Coverage.antt =====
-- The console knows the statuses of the server.
use job_scheduler.Prelude.{◌≡◌, refl, String, true, false, Memᴰ, str_eq, is_some}
use job_scheduler.Json.{Js}
use job_scheduler.Db.{
  JobStatus, queued, scheduled, claimed, running, completed, failed, dead_letter,
}
use job_scheduler.Router.Listing.{status_text}
use job_scheduler.Console.Status.{find_style, styles, get_status_style, job_statuses}

-- The key that `getStatusStyle` makes of a text in lower case without white space is that text.
abbrev pub KeepsPlain : Js → String → Type 0
KeepsPlain js s = js.spaces_to_underscores (js.to_lower s) ≡ s

-- Every status that a job can have in the database is one of the filters of the console, and has a
-- style of its own, with a label that is not the bare status.
pub job_statuses_styled :
    (js : Js) (st : JobStatus)
    → KeepsPlain js (status_text st)
    → Memᴰ (status_text st) job_statuses
      × (is_some (find_style (status_text st) styles) ≡ true)
      × (str_eq (get_status_style js (status_text st)).label (status_text st) ≡ false)
unfolding get_status_style
job_statuses_styled js queued h = (Memᴰ.head refl, refl, rw h refl)
job_statuses_styled js scheduled h = (Memᴰ.tail (Memᴰ.head refl), refl, rw h refl)
job_statuses_styled js claimed h = (Memᴰ.tail (Memᴰ.tail (Memᴰ.head refl)), refl, rw h refl)
job_statuses_styled js running h =
    (Memᴰ.tail (Memᴰ.tail (Memᴰ.tail (Memᴰ.head refl))), refl, rw h refl)
job_statuses_styled js completed h =
    (Memᴰ.tail (Memᴰ.tail (Memᴰ.tail (Memᴰ.tail (Memᴰ.head refl)))), refl, rw h refl)
job_statuses_styled js failed h =
    (Memᴰ.tail (Memᴰ.tail (Memᴰ.tail (Memᴰ.tail (Memᴰ.tail (Memᴰ.head refl))))), refl, rw h refl)
job_statuses_styled js dead_letter h = (
  Memᴰ.tail (Memᴰ.tail (Memᴰ.tail (Memᴰ.tail (Memᴰ.tail (Memᴰ.tail (Memᴰ.head refl)))))),
  refl,
  rw h refl,
)
