-- ===== src/Plugins.antt =====
-- runtime/plugins/dag.ts: the order in which plugins are initialised.
pub mod Dag
pub mod Order
pub mod Visits
pub mod Resolved
pub mod Registry
pub mod Manager
