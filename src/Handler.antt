-- ===== src/Handler.antt =====
-- services/ingest/internal/handler: the HTTP handlers.
pub mod Action
pub mod Outcomes
pub mod Refusals
pub mod Triples
pub mod Returns
pub mod Body
pub mod Batch
pub mod Token
pub mod Jwks
