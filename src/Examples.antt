-- ===== src/Examples.antt =====
-- The theorems at concrete inputs.
mod Samples
mod Signer
mod Ingest
mod Counters
mod Tokens
mod Deliveries
mod Exchanges
mod Upgrades
mod Wired
mod Published
mod Twice
mod Routed
mod Keyed
mod Swept
mod Provisioning
mod Imports
