-- ===== src/Router/Submit/Replay.antt =====
-- Submitting with an idempotency key that the queue has seen.
use job_scheduler.Json.{Json}
use job_scheduler.Db.{Db}
use job_scheduler.Db.Client.{Client}
