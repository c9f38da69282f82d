-- ===== src/Tenant.antt =====
-- pkg/tenant: minting and verifying ingest tokens, and the legacy write keys.
pub mod Jose
pub mod Keys
pub mod Verify
pub mod Legacy
pub mod Mint
use event_tracking.Prelude.{ℕ, String}

-- token.go: the tenant facts of a token
pub record Claims : Type 0 where
  pub tenant_id : String
  pub install_id : String
  pub scope : String
  pub trust_tier : ℕ

abbrev pub token_type : String
token_type = "at+jwt"

abbrev pub scope_write_events : String
scope_write_events = "write:events"
