-- ===== src/Compare.antt =====
-- piceli/k8s/ops/compare: paths, differences and update actions.
pub mod KeyPath
pub mod Value
pub mod Comparer
pub mod Action
pub mod Patch
pub mod Sets
mod Tests
