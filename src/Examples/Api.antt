-- ===== src/Examples/Api.antt =====
-- Witnesses for the dispatch of requests, login, projects, statistics and records.
use job_scheduler.Prelude.{
  ℕ, ◌≤◌, ◌≡◌, refl, pos, String, true, some, none, List, [], ◌∷◌, ◌⊎◌, Memᴰ, length, ltb,
  if◌then◌else◌, ◌<>◌, arith, join_path,
}
use job_scheduler.Json.{Json, read_member, obj, field, str, num, end}
use job_scheduler.Db.{Db, User, Queue, Execution}
use job_scheduler.Db.Client.{is_queue_in}
use job_scheduler.Db.Sql.{ok, throws, sent, statement}
use job_scheduler.Auth.{Env, secret, claim_fields, claims_from_request}
use job_scheduler.Auth.Tokens.{VerifiesOwn}
use job_scheduler.Http.{QueueStats, Body, DlqItem, json, unauthorized}
use job_scheduler.Router.{Server, Request}
use job_scheduler.Router.Dispatch.{handle_api}
use job_scheduler.Router.Dispatch.Guarded.{
  Refuses, handle_api-unauthorized, handle_api_without_database,
}
use job_scheduler.Router.Paths.{Endpoint, route}
use job_scheduler.Router.Login.{claims_for, profile_of, login_with, get_sql, find_user}
use job_scheduler.Router.Login.Session.{login_session}
use job_scheduler.Router.Projects.{create_queue}
use job_scheduler.Router.Projects.Tenancy.{create_queue_scoped}
use job_scheduler.Router.Stats.{queue_stats}
use job_scheduler.Router.Stats.Bounds.{IsReport, queue_stats-IsReport}
use job_scheduler.Router.Records.{dead_letters}
use job_scheduler.Router.Records.Scope.{Shows, dead_letters_scoped}
use job_scheduler.Samples.{calm, plain_client, queue, shop}
use job_scheduler.Examples.Logins.{bare, one_token}

abbrev pub with_database : Env
with_database = record bare { database_url = some "postgres://db" }

abbrev pub server : Server
server = record {
  world = calm;
  client = plain_client;
  jose = one_token;
  env = with_database;
  seconds = 100;
}

-- A request to pause a queue, without a token.
abbrev pub anonymous : Request
anonymous = record {
  method = "POST";
  path = "queues" ∷ "queue-10" ∷ "pause" ∷ [];
  authorization = none;
  body = throws "no body";
  status_param = none;
  queue_id_param = none;
}

anonymous-route : route "POST" (join_path anonymous.path) ≡ Endpoint.pause_queue "queue-10"
unfolding route
anonymous-route = refl

handle_api-unauthorized_example : handle_api server anonymous shop ≡ (unauthorized, shop)
unfolding claims_from_request
handle_api-unauthorized_example =
    handle_api-unauthorized server anonymous shop (λ e. ground (arith, anonymous-route)) refl

handle_api_without_database_example :
    Refuses shop (handle_api (record server { env = bare }) anonymous shop)
unfolding get_sql
handle_api_without_database_example =
    handle_api_without_database (record server { env = bare }) anonymous shop refl

abbrev owner : User
owner = record {
  id = 7;
  org_id = 1;
  email = "admin@demo.com";
  name = "Demo Admin";
  role = "admin";
  password_hash = "demo";
  created_at = 1000;
  updated_at = 1000;
}

-- Users are looked up, not replaced by the demo administrator.
abbrev strict : Server
strict = record server {
  env = record with_database { demo_auth = some "false" };
  jose = record one_token {
    verify = λ _ _ now.
        if ltb now 86_500 then some (claim_fields (claims_for plain_client owner)) else none;
  };
}

abbrev staffed : Db
staffed = record shop { users = owner ∷ [] }

strict-VerifiesOwn :
    VerifiesOwn strict.jose
      (claim_fields (claims_for plain_client owner))
      100
      86_500
      (secret strict.env)
strict-VerifiesOwn now fresh =
    (claim_fields (claims_for plain_client owner), ground arith, λ k _ _. refl)

login_session_example :
    (token : String) × (login_with strict "admin@demo.com" "demo" staffed
      ≡ (ok (json (Body.session token (profile_of owner)) 200), sent staffed))
    × (claims_from_request strict.jose strict.env calm.js 5000 (some ("Bearer " <> token))
        ≡ some (claims_for plain_client owner))
unfolding get_sql find_user statement
login_session_example =
    login_session strict staffed (sent staffed) "admin@demo.com" "demo" owner 5000 refl refl refl
      refl strict-VerifiesOwn (omega arith)

abbrev wanted : Json
wanted = obj (
    field "project_id" (num (pos 3))
      (field "name" (str "Reports") (field "slug" (str "reports") end)))

abbrev made : Db
made = (create_queue calm plain_client "org-1" (ok wanted) shop).1

abbrev reports : Queue
reports = record (queue 501 3 none) {
  name = "Reports";
  slug = "reports";
  created_at = 101_000;
  updated_at = 101_000;
}

reports-mem : Memᴰ reports made.queues
unfolding create_queue read_member statement
reports-mem = Memᴰ.tail (Memᴰ.head refl)

create_queue_scoped_example : Memᴰ reports shop.queues ⊎ (is_queue_in 1 shop reports ≡ true)
create_queue_scoped_example =
    create_queue_scoped calm plain_client "org-1" 1 (ok wanted) shop refl (tt, tt) reports
      reports-mem

abbrev finished : ℕ → String → Execution
finished id status = record {
  id = id;
  job_id = 7;
  worker_id = some 2;
  attempt = 1;
  status = status;
  started_at = 1000;
  finished_at = some 2000;
  error = none;
  duration_ms = some (pos 40);
  created_at = 1000;
  updated_at = 2000;
}

abbrev runs : List Execution
runs = finished 1 "completed" ∷ finished 2 "failed" ∷ []

abbrev measured : Db
measured = record shop { executions = runs }

queue_stats-IsReport_example :
    (v : QueueStats) × (queue_stats calm plain_client "org-1" "queue-10" measured
      ≡ (ok (json (Body.stats v) 200), sent (sent (sent measured))))
    × IsReport 101_000 10 (queue 10 3 none) measured v
unfolding is_queue_in
queue_stats-IsReport_example =
    queue_stats-IsReport calm plain_client measured "org-1" "queue-10" 10 1 (queue 10 3 none)
      (refl, (refl, (refl, tt))) refl refl refl

dead_letters_scoped_example :
    (length (dead_letters 1 shop) ≤ 100)
    × ((item : DlqItem) → Memᴰ item (dead_letters 1 shop) → Shows 1 shop item)
dead_letters_scoped_example = dead_letters_scoped 1 shop
