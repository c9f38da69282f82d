-- ===== src/Validate.antt =====
-- services/ingest/internal/validate/validate.go
pub mod Spec
pub mod Laws
pub mod Rejects
use Prim.Native.String.{len}
use event_tracking.Prelude.{
  ℕ, String, ◌≡◌, refl, Bool, true, false, not, ◌||◌, List, [], ◌∷◌, Option, none, some, ◌==◌, ltb,
  length, if◌then◌else◌,
}
use event_tracking.Prelude.Int.{ℤ, pos, negsuc, ltb_ℤ, ◌-ℤ◌, floor_div}
use event_tracking.Prelude.Text.{◌+++◌, decimal}
use event_tracking.Time.{date, unix_milli}
use event_tracking.Limits.{max_props_per_event}
use event_tracking.Contract.{
  Float64, nan, inf, finite, Kind, string_value, number_value, bool_value, Value, Event, Reject,
}

abbrev pub code_missing_event_id : String
code_missing_event_id = "MISSING_EVENT_ID"

abbrev pub code_bad_event_id : String
code_bad_event_id = "BAD_EVENT_ID"

abbrev pub code_missing_name : String
code_missing_name = "MISSING_NAME"

abbrev pub code_name_too_long : String
code_name_too_long = "NAME_TOO_LONG"

abbrev pub code_missing_device_id : String
code_missing_device_id = "MISSING_DEVICE_ID"

abbrev pub code_bad_ts_client : String
code_bad_ts_client = "BAD_TS_CLIENT"

abbrev pub code_too_many_props : String
code_too_many_props = "TOO_MANY_PROPS"

abbrev pub code_prop_key_too_long : String
code_prop_key_too_long = "PROP_KEY_TOO_LONG"

abbrev pub code_invalid_property_type : String
code_invalid_property_type = "INVALID_PROPERTY_TYPE"

abbrev pub max_name_len : ℕ
max_name_len = 255

abbrev pub max_prop_key_len : ℕ
max_prop_key_len = 128

-- The bounds of DateTime64(3, 'UTC'), in milliseconds.
unfoldable pub min_ts_client_ms : ℤ
unfolding unix_milli date floor_div ◌-ℤ◌
min_ts_client_ms = unix_milli (date 1900 1 1 0 0 0 0)

unfoldable pub max_ts_client_ms : ℤ
unfolding unix_milli date floor_div ◌-ℤ◌
max_ts_client_ms = unix_milli (date 2299 12 31 23 59 59 999_000_000)

-- github.com/google/uuid, which is not part of the repository: Parse and UUID.String.
pub record Uuid : Type 1 where
  pub Uid : Type 0
  pub parse : String → Option Uid
  pub to_string : Uid → String

abbrev pub is_nan : Float64 → Bool
is_nan nan = true
is_nan (inf _) = false
is_nan (finite _ _) = false

-- math.IsInf(f, 0)
abbrev pub is_inf : Float64 → Bool
is_inf nan = false
is_inf (inf _) = true
is_inf (finite _ _) = false

-- `err != nil || id.String() != s`
abbrev pub is_not_canonical : (u : Uuid) → Option u.Uid → String → Bool
is_not_canonical u none s = true
is_not_canonical u (some id) s = not (u.to_string id == s)

-- What a closure `reject` is called with: the code and the message.
abbrev pub Problem : Type 0
Problem = String × String

-- the `switch` on the kind of one property
unfoldable pub check_kind : String → Option Kind → Option Problem
check_kind k (some (string_value _)) = none
check_kind k (some (bool_value _)) = none
check_kind k (some (number_value f)) =
    if is_nan f || is_inf f
    then some (code_invalid_property_type, "props." +++ k +++ ": must be a finite number")
    else none
check_kind k none = some (code_invalid_property_type, "props." +++ k +++ ": no value set")

-- one round of the loop over the properties
unfoldable pub check_prop : String × Value → Option Problem
unfolding check_kind
check_prop (k, v) =
    if ltb max_prop_key_len (len k)
    then some (
      code_prop_key_too_long,
      "props." +++ k +++ ": key exceeds " +++ decimal max_prop_key_len +++ " bytes",
    )
    else check_kind k v.kind

-- the loop, which returns at the first problem
unfoldable pub check_props : List (String × Value) → Option Problem
check_props [] = none
check_props (p ∷ ps) = elim (check_prop p) [ none ↦ check_props ps | some bad ↦ some bad ]

module _ (u : Uuid) where
  -- the body of `Event`, each early return with its code and message
  unfoldable pub check_event : Event → Option Problem
  check_event e =
      if e.event_id == ""
      then some (code_missing_event_id, "event_id is required")
      else if is_not_canonical u (u.parse e.event_id) e.event_id
      then some (code_bad_event_id, "event_id must be a canonical UUID")
      else if e.name == ""
      then some (code_missing_name, "name is required")
      else if ltb max_name_len (len e.name)
      then some (code_name_too_long, "name exceeds " +++ decimal max_name_len +++ " bytes")
      else if e.device_id == ""
      then some (code_missing_device_id, "device_id is required")
      else if ltb_ℤ e.ts_client min_ts_client_ms || ltb_ℤ max_ts_client_ms e.ts_client
      then some (code_bad_ts_client, "ts_client is out of range")
      else if ltb max_props_per_event (length e.props)
      then some (
        code_too_many_props,
        "props: "
            +++ decimal (length e.props)
            +++ " exceeds limit of "
            +++ decimal max_props_per_event,
      )
      else check_props e.props

  unfoldable pub event : Event → Option Reject
  event e = elim (check_event e) [
    | none ↦ none
    | some (c, m) ↦ some (record { event_id = e.event_id; code = c; message = m })
  ]

ts_bounds : (min_ts_client_ms ≡ negsuc 2208988799999) × (max_ts_client_ms ≡ pos 10413791999999)
unfolding min_ts_client_ms max_ts_client_ms
ts_bounds = (refl, refl)
