-- ===== src/ControlPlane.antt =====
-- pkg/controlplane: what the control plane keeps in Postgres.
pub mod Installs
pub mod Migrate
pub mod Pool
pub mod SigningKeys
pub mod Tenants
