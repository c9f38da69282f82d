-- ===== src/Validate/Spec.antt =====
-- What validate.go promises, stated without the order of its tests.
use Prim.Native.String.{len}
use event_tracking.Prelude.{◌≤◌, ◌<◌, String, ◌≡◌, ◌≢◌, ◌⊎◌, Option, none, some, length, All}
use event_tracking.Prelude.Int.{◌≤ℤ◌, ◌<ℤ◌}
use mathlib.Core.List.{Memᴰ}
use event_tracking.Limits.{max_props_per_event}
use event_tracking.Contract.{
  Float64, nan, inf, finite, Kind, string_value, number_value, bool_value, Value, Event,
}
use event_tracking.Validate.{
  Uuid, max_name_len, max_prop_key_len, min_ts_client_ms, max_ts_client_ms, code_missing_event_id,
  code_bad_event_id, code_missing_name, code_name_too_long, code_missing_device_id,
  code_bad_ts_client, code_too_many_props, code_prop_key_too_long, code_invalid_property_type,
}

abbrev pub IsFinite : Float64 → Type 0
IsFinite nan = ⊥
IsFinite (inf _) = ⊥
IsFinite (finite _ _) = Unit

abbrev pub IsScalar : Option Kind → Type 0
IsScalar none = ⊥
IsScalar (some (string_value _)) = Unit
IsScalar (some (bool_value _)) = Unit
IsScalar (some (number_value f)) = IsFinite f

abbrev pub IsGoodProp : String × Value → Type 0
IsGoodProp p = (len p.0 ≤ max_prop_key_len) × IsScalar (p.1).kind

module _ (u : Uuid) where
  -- The text is what the UUID library prints for the value that it reads from the text.
  abbrev pub IsCanonical : String → Type 0
  IsCanonical s = (id : u.Uid) × (u.parse s ≡ some id) × (u.to_string id ≡ s)

  pub record IsStorable (e : Event) : Type 0 where
    pub has_id : e.event_id ≢ ""
    pub canonical : IsCanonical e.event_id
    pub has_name : e.name ≢ ""
    pub name_fits : len e.name ≤ max_name_len
    pub has_device : e.device_id ≢ ""
    pub not_early : min_ts_client_ms ≤ℤ e.ts_client
    pub not_late : e.ts_client ≤ℤ max_ts_client_ms
    pub few_props : length e.props ≤ max_props_per_event
    pub good_props : All IsGoodProp e.props

  -- The fault that each code reports.
  pub data Blames (e : Event) (code : String) : Type 0 where
    missing_event_id : code ≡ code_missing_event_id → e.event_id ≡ "" → Blames e code
    bad_event_id : code ≡ code_bad_event_id → ¬ IsCanonical e.event_id → Blames e code
    missing_name : code ≡ code_missing_name → e.name ≡ "" → Blames e code
    name_too_long : code ≡ code_name_too_long → max_name_len < len e.name → Blames e code
    missing_device_id : code ≡ code_missing_device_id → e.device_id ≡ "" → Blames e code
    bad_ts_client :
        code ≡ code_bad_ts_client
        → (e.ts_client <ℤ min_ts_client_ms) ⊎ (max_ts_client_ms <ℤ e.ts_client)
        → Blames e code
    too_many_props :
        code ≡ code_too_many_props → max_props_per_event < length e.props → Blames e code
    prop_key_too_long :
        (k : String) (v : Value)
        → code ≡ code_prop_key_too_long
        → Memᴰ (k, v) e.props
        → max_prop_key_len < len k
        → Blames e code
    invalid_property_type :
        (k : String) (v : Value)
        → code ≡ code_invalid_property_type
        → Memᴰ (k, v) e.props
        → ¬ IsScalar v.kind
        → Blames e code
