-- ===== src/ClickHouse.antt =====
-- pkg/clickhouse: the storage row and the insert path.
pub mod Insert
pub mod Migrate
pub mod Pool
use event_tracking.Prelude.{ℕ, String}
use event_tracking.Time.{Time}

pub record Row : Type 0 where
  pub tenant_id : String
  pub event_id : String
  pub name : String
  pub ts : Time
  pub ts_client : Time
  pub ts_received : Time
  pub user_id : String
  pub anonymous_id : String
  pub device_id : String
  pub session_id : String
  pub seq : ℕ
  pub app_version : String
  pub sdk_version : String
  pub os : String
  pub os_version : String
  pub locale : String
  pub trust_tier : ℕ
  pub install_id : String
  pub props : String
