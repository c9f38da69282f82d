-- ===== src/Examples/Samples.antt =====
-- The data of the examples.
use event_tracking.Prelude.{String, false, ◌==◌, [], ◌∷◌, none, some, ◌*◌, if◌then◌else◌}
use event_tracking.Prelude.Int.{pos}
use event_tracking.Time.{Time, second}
use event_tracking.Limits.{Quota, default_quota}
use event_tracking.Contract.{string_value, bool_value, Value, Context, Event, BatchRequest}
use event_tracking.Tenant.{Claims}
use event_tracking.Validate.{Uuid}
use event_tracking.Enrich.Offsets.{SessionKey}

-- 2026-08-02 00:00:00 UTC
abbrev pub noon : Time
noon = pos (1785628800 * second)

-- every text but the empty one is canonical
abbrev pub texts : Uuid
texts = record { Uid = String; parse = λ s. if s == "" then none else some s; to_string = λ id. id }

abbrev pub sdk : Context
sdk = record {
  sdk_version = "1.2.0";
  app_version = "7";
  os = "android";
  os_version = "15";
  locale = "de";
}

abbrev pub plan_prop : String × Value
plan_prop = ("plan", record { kind = some (string_value "pro") })

abbrev pub trial_prop : String × Value
trial_prop = ("trial", record { kind = some (bool_value false) })

abbrev pub click : Event
click = record {
  event_id = "e1";
  name = "click";
  ts_client = pos 1785628795000;
  seq = 4;
  device_id = "d1";
  session_id = "s1";
  anonymous_id = "a1";
  user_id = "";
  props = plan_prop ∷ trial_prop ∷ [];
  context = some sdk;
}

-- an event with a property that has no kind
abbrev pub bare : Event
bare = record click { event_id = "e2"; props = ("x", record { kind = none }) ∷ [] }

abbrev pub claims : Claims
claims = record { tenant_id = "t1"; install_id = "i1"; scope = "write:events"; trust_tier = 1 }

abbrev pub batch : BatchRequest
batch = record { sent_at = pos 1785628799000; events = click ∷ bare ∷ [] }

abbrev pub session : SessionKey
session = record { tenant_id = "t1"; device_id = "d1"; session_id = "s1" }

abbrev pub small_quota : Quota
small_quota = record default_quota { rps = pos 3; daily_events = pos 4 }
