-- ===== src/Templates.antt =====
-- piceli/k8s/templates: the parts of the templates that check, merge or compute.
pub mod Raise
pub mod Dict
pub mod Labels
pub mod EnvVars
pub mod Volume
pub mod Container
pub mod Pod
pub mod Account
pub mod Replica
mod Tests
