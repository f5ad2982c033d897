-- ===== src/Deploy.antt =====
-- piceli/k8s/ops/deploy: the graph of the objects to deploy, the strategy that builds it.
pub mod Graph
pub mod Levels
pub mod Strategy
pub mod Progress
pub mod Executor
pub mod Op
mod Tests
