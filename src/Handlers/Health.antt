-- ===== src/Handlers/Health.antt =====
-- handlers/health.go: the answers that a supervisor reads.
use gottem_link.Base.{Str, Bool, true, false, codes}
use gottem_link.Db.Schema.{Database}
use gottem_link.Db.Migrations.{ready}

-- Status 200 with a text, and 503.
pub data HealthReply : Type 0 where
  healthy : Str → HealthReply
  service_unavailable : HealthReply

unfoldable pub health_handler : HealthReply
health_handler = healthy (codes "ok\n")

abbrev pub readiness_of : Bool → HealthReply
readiness_of true = health_handler
readiness_of false = service_unavailable

-- The database is the readiness checker that main.go passes.
unfoldable pub readiness_handler : Database → HealthReply
unfolding ready health_handler
readiness_handler database = readiness_of (ready database)
