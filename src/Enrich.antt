-- ===== src/Enrich.antt =====
-- services/ingest/internal/enrich: from a validated envelope to a storage row.
pub mod Skew
pub mod Offsets
pub mod Row
