-- ===== src/Contract.antt =====
-- gen/go/tracking/v1: the messages of the wire contract, and the getters that the services call.
-- A message is a record; a pointer that may be nil, and the oneof, is an `Option`.
use event_tracking.Prelude.{ℕ, String, List, Option, none, some, Bool}
use event_tracking.Prelude.Int.{ℤ}

-- A float64: a finite one is mantissa * 2 ^ exponent, in some such form.
pub data Float64 : Type 0 where
  nan : Float64
  inf : Bool → Float64
  finite : ℤ → ℤ → Float64

pub data Kind : Type 0 where
  string_value : String → Kind
  number_value : Float64 → Kind
  bool_value : Bool → Kind

pub record Value : Type 0 where
  pub kind : Option Kind

pub record Context : Type 0 where
  pub sdk_version : String
  pub app_version : String
  pub os : String
  pub os_version : String
  pub locale : String

-- `props` is a Go map: its pairs in the order in which one `range` loop meets them.
pub record Event : Type 0 where
  pub event_id : String
  pub name : String
  pub ts_client : ℤ
  pub seq : ℕ
  pub device_id : String
  pub session_id : String
  pub anonymous_id : String
  pub user_id : String
  pub props : List (String × Value)
  pub context : Option Context

pub record BatchRequest : Type 0 where
  pub sent_at : ℤ
  pub events : List Event

pub record Reject : Type 0 where
  pub event_id : String
  pub code : String
  pub message : String

pub record BatchResponse : Type 0 where
  pub received_at : ℤ
  pub accepted : List String
  pub rejected : List Reject

pub record TokenRequest : Type 0 where
  pub client_id : String
  pub platform : String
  pub attestation : String
  pub challenge : String
  pub device_hint : String

pub record TokenResponse : Type 0 where
  pub access_token : String
  pub expires_in : ℤ
  pub trust_tier : ℕ

-- The getters of a nil *Context return "".
abbrev pub get_sdk_version : Option Context → String
get_sdk_version none = ""
get_sdk_version (some c) = c.sdk_version

abbrev pub get_app_version : Option Context → String
get_app_version none = ""
get_app_version (some c) = c.app_version

abbrev pub get_os : Option Context → String
get_os none = ""
get_os (some c) = c.os

abbrev pub get_os_version : Option Context → String
get_os_version none = ""
get_os_version (some c) = c.os_version

abbrev pub get_locale : Option Context → String
get_locale none = ""
get_locale (some c) = c.locale
