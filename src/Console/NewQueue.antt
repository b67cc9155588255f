-- ===== src/Console/NewQueue.antt =====
-- dashboard/src/components/forms/CreateQueueForm.tsx: the forms of a new queue and a new project.
pub mod Typing
use job_scheduler.Prelude.{
  pos, String, Bool, true, false, not, Option, none, some, List, [], ◌∷◌, ◌||◌, str_eq,
  if◌then◌else◌,
}
use job_scheduler.Json.{Json, Js, str, num, obj}
use job_scheduler.Db.Sql.{Result, ok, throws}
use job_scheduler.Console.Api
use job_scheduler.Console.Api.{Browser, Reply, compact, receive}
use job_scheduler.Console.Data.{Project}
use job_scheduler.Console.Format.{slugify_name}
use job_scheduler.Console.Submit.{given, number, parse_or}

pub record QueueForm : Type 0 where
  pub project_id : String
  pub name : String
  pub slug : String
  pub slug_touched : Bool
  pub concurrency : String
  pub priority : String
  pub saving : Bool
  pub error : String

-- `projects[0]?.id ?? ""`
abbrev first_id : List Project → String
first_id [] = ""
first_id (p ∷ _) = p.id

unfoldable pub initial : List Project → QueueForm
initial projects = record {
  project_id = first_id projects;
  name = "";
  slug = "";
  slug_touched = false;
  concurrency = "10";
  priority = "5";
  saving = false;
  error = "";
}

-- The effect on `[name, slugTouched]`: the slug, as a function of the two.
abbrev pub followed : Js → Bool → String → String → String
followed js touched name slug = if touched || str_eq name "" then slug else slugify_name js name

abbrev follow_name : Js → QueueForm → QueueForm
follow_name js f = record f { slug = followed js f.slug_touched f.name f.slug }

-- The effect on `[projects, projectId]`.
unfoldable pub follow_projects : List Project → QueueForm → QueueForm
follow_projects projects f =
    if str_eq f.project_id "" then record f { project_id = first_id projects } else f

-- What the fields' onChange handlers do, with the effects that follow.
unfoldable pub type_name : Js → String → QueueForm → QueueForm
type_name js name f = follow_name js (record f { name = name })

unfoldable pub type_slug : Js → String → QueueForm → QueueForm
type_slug js slug f = follow_name js (record f { slug_touched = true; slug = slug })

unfoldable pub choose_project : List Project → String → QueueForm → QueueForm
unfolding follow_projects
choose_project projects id f = follow_projects projects (record f { project_id = id })

unfoldable pub type_concurrency : String → QueueForm → QueueForm
type_concurrency text f = record f { concurrency = text }

unfoldable pub type_priority : String → QueueForm → QueueForm
type_priority text f = record f { priority = text }

-- JSON.stringify leaves an undefined limit out.
unfoldable pub body : Js → QueueForm → Json
unfolding compact parse_or
body js f = obj (
    compact (
      ("project_id", some (str f.project_id))
      ∷ ("name", some (str (js.trim f.name)))
      ∷ ("slug", some (str (js.trim f.slug)))
      ∷ ("priority_default", some (num (parse_or js f.priority (pos 5))))
      ∷ given "concurrency_limit" f.concurrency (number (js.parse_int f.concurrency))
      ∷ []))

-- What else the handlers do.
pub data Act : Type 0 where
  revalidate_queues created : Act

abbrev begun : QueueForm → QueueForm
begun f = record f { saving = true; error = "" }

-- handleSubmit behind the `await`.
unfoldable pub settle_create : Result Json → QueueForm → QueueForm × List Act
settle_create (throws message) f = (record f { error = message; saving = false }, [])
settle_create (ok _) f = (record f { saving = false }, revalidate_queues ∷ created ∷ [])

unfoldable pub handle_submit : Js → QueueForm → Reply → Browser → QueueForm × List Act × Browser
unfolding receive settle_create Api.create_queue
handle_submit js f reply b =
    let (result, after) = receive js (Api.create_queue (body js f)).auth reply b in
    let (g, acts) = settle_create result (begun f) in (g, acts, after)

pub record ProjectForm : Type 0 where
  pub name : String
  pub slug : String
  pub slug_touched : Bool
  pub saving : Bool
  pub error : String

abbrev follow_project : Js → ProjectForm → ProjectForm
follow_project js f = record f { slug = followed js f.slug_touched f.name f.slug }

unfoldable pub type_project_name : Js → String → ProjectForm → ProjectForm
type_project_name js name f = follow_project js (record f { name = name })

unfoldable pub type_project_slug : Js → String → ProjectForm → ProjectForm
type_project_slug js slug f = follow_project js (record f { slug_touched = true; slug = slug })

unfoldable pub project_body : Js → ProjectForm → Json
unfolding compact
project_body js f =
    obj
      (compact (("name", some (str (js.trim f.name))) ∷ ("slug", some (str (js.trim f.slug))) ∷ []))

-- `onCreated()` fetches the projects again.
unfoldable pub settle_project : Result Json → ProjectForm → ProjectForm × Bool
settle_project (throws message) f = (record f { error = message; saving = false }, false)
settle_project (ok _) f = (record f { saving = false }, true)

unfoldable pub handle_project : Js → ProjectForm → Reply → Browser → ProjectForm × Bool × Browser
unfolding receive settle_project Api.create_project
handle_project js f reply b =
    let (result, after) = receive js (Api.create_project (project_body js f)).auth reply b in
    let (g, done) = settle_project result (record f { saving = true; error = "" }) in
    (g, done, after)
