-- ===== src/Service/Health.antt =====
-- services/ingest/cmd/main.go: GET /healthz and GET /readyz
use event_tracking.Prelude.{Bool, [], if◌then◌else◌}
use event_tracking.Handler.Jwks.{Reply, plain_error}

abbrev pub healthz : Reply
healthz = record { status = 200; headers = []; body = "" }

-- The pings of the three servers, in this order; the first that fails ends the request.
unfoldable pub readyz : Bool → Bool → Bool → Reply
readyz clickhouse postgres redis =
    if clickhouse
    then if postgres
      then if redis
        then record { status = 200; headers = []; body = "" }
        else plain_error 503 "redis"
      else plain_error 503 "postgres"
    else plain_error 503 "clickhouse"
