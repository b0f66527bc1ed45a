-- ===== src/Registry.antt =====
-- The agent registry (cmd/registry and internal/registry).
pub mod Types
pub mod Schema
pub mod Store
pub mod Requests
pub mod Lineage
pub mod World
pub mod Cascade
pub mod Authority
pub mod Control
pub mod Registration
pub mod Admission
pub mod Lifecycle
pub mod Catalog
pub mod Broker
pub mod Directory
pub mod Orgs
pub mod Users
pub mod Anchor
pub mod Dynamostore
