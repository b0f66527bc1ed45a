-- ===== src/Spiffe.antt =====
-- internal/spiffe: the canonical SPIFFE path contract.
pub mod Path
