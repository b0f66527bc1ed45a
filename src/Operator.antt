-- ===== src/Operator.antt =====
-- internal/operator: the operator's reconciliation of the registry with the cluster.
pub mod StaleSweep
