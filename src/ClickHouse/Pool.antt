-- ===== src/ClickHouse/Pool.antt =====
-- pkg/clickhouse/pool.go: Config and Open
use event_tracking.Prelude.{ℕ, String, List, [], ◌∷◌, Result}
use event_tracking.ControlPlane.Pool.{Pools, OpenError, open_pool}

-- clickhouse.Config
pub record Config : Type 0 where
  pub addrs : List String
  pub database : String
  pub username : String
  pub password : String

-- The options that Open passes to the driver: the settings by name, and numbers of seconds.
pub record Options : Type 0 where
  pub of_config : Config
  pub settings : List (String × ℕ)
  pub dial_timeout : ℕ
  pub max_open_conns : ℕ
  pub max_idle_conns : ℕ
  pub conn_max_lifetime : ℕ
  pub compression : String

abbrev pub options : Config → Options
options cfg = record {
  of_config = cfg;
  settings =
      ("async_insert", 1)
      ∷ ("wait_for_async_insert", 1)
      ∷ ("async_insert_busy_timeout_ms", 1000)
      ∷ ("async_insert_max_data_size", 10000000)
      ∷ [];
  dial_timeout = 5;
  max_open_conns = 32;
  max_idle_conns = 8;
  conn_max_lifetime = 600;
  compression = "lz4";
}

-- Open: dial, ping, and close when the ping fails
abbrev pub open_clickhouse :
    {W : Type 0} → Pools Options W → Config → W → Result OpenError (Unit {0}) × W
open_clickhouse p cfg = open_pool p (options cfg)
