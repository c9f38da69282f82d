-- ===== src/Limits.antt =====
-- pkg/limits: the numbers of the public contract.
use event_tracking.Prelude.{ℕ, ◌^◌}
use event_tracking.Prelude.Int.{ℤ, pos}

abbrev pub max_events_per_batch : ℕ
max_events_per_batch = 500

abbrev pub max_batch_bytes : ℕ
max_batch_bytes = 2 ^ 20

abbrev pub max_props_per_event : ℕ
max_props_per_event = 50

abbrev pub max_outbox_rows : ℕ
max_outbox_rows = 10_000

abbrev pub max_retry_attempts : ℕ
max_retry_attempts = 20

-- Go's `int` and `int64` fields may hold any value that the quotas table has, also a negative one.
pub record Quota : Type 0 where
  pub daily_events : ℤ
  pub rps : ℤ
  pub legacy_rps : ℤ

abbrev pub default_quota : Quota
default_quota = record { daily_events = pos 1_000_000; rps = pos 50; legacy_rps = pos 5 }

abbrev pub default_rps_tier1 : ℤ
default_rps_tier1 = pos 10
