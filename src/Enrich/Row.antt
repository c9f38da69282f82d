-- ===== src/Enrich/Row.antt =====
-- services/ingest/internal/enrich/enrich.go: the storage row of an event
pub mod Props
use event_tracking.Prelude.{String, List, [], ◌∷◌, Option, none, some, Bool}
use event_tracking.Prelude.Int.{ℤ}
use event_tracking.Time.{Time, of_unix_milli}
use event_tracking.Contract.{
  Kind, Value, Event, get_sdk_version, get_app_version, get_os, get_os_version, get_locale,
}
use event_tracking.Tenant.{Claims}
use event_tracking.ClickHouse.{Row}
use event_tracking.Enrich.Skew.{correct}

-- The loop of `propsJSON`: a value with no kind writes no pair.
unfoldable pub flatten : List (String × Value) → List (String × Kind)
flatten [] = []
flatten ((k, v) ∷ ps) = elim v.kind [ none ↦ flatten ps | some x ↦ (k, x) ∷ flatten ps ]

-- encoding/json is a parameter: `marshal` prints an object, `none` is its error.
module _ (marshal : List (String × Kind) → Option String) where
  pub props_json : List (String × Value) → String
  props_json [] = "{}"
  props_json (p ∷ ps) = elim (marshal (flatten (p ∷ ps))) [ none ↦ "{}" | some b ↦ b ]

  unfoldable pub row : Event → Claims → ℤ → Time → Row × Bool
  row e c offset_ms received_at =
      let (ts, clamped) = correct e.ts_client offset_ms received_at in
      (
        record {
          tenant_id = c.tenant_id;
          event_id = e.event_id;
          name = e.name;
          ts = ts;
          ts_client = of_unix_milli e.ts_client;
          ts_received = received_at;
          user_id = e.user_id;
          anonymous_id = e.anonymous_id;
          device_id = e.device_id;
          session_id = e.session_id;
          seq = e.seq;
          app_version = get_app_version e.context;
          sdk_version = get_sdk_version e.context;
          os = get_os e.context;
          os_version = get_os_version e.context;
          locale = get_locale e.context;
          trust_tier = c.trust_tier;
          install_id = c.install_id;
          props = props_json e.props;
        },
        clamped,
      )
