-- ===== src/Service.antt =====
-- services/ingest/cmd/main.go: the service, put together from its parts
pub mod Wiring
pub mod Start
pub mod Health
pub mod Routes
use event_tracking.Prelude.{ℕ, ◌*◌, String, ◌==◌, if◌then◌else◌}
use event_tracking.Time.{second}

-- `variables` is os.Getenv, "" for a variable that is not set.
abbrev pub env : (String → String) → String → String → String
env variables name default = if variables name == "" then default else variables name

-- 45 minutes
abbrev pub token_lifetime : ℕ
token_lifetime = 45 * (60 * second)
