-- ===== src/Workflow.antt =====
-- runtime/workflow/compilation-service.ts, in parts: what a definition is, the two searches of its
-- graph, and `compile`.
pub mod Definition
pub mod Graph
pub mod Reachable
pub mod CycleSearch
pub mod CycleVerdict
pub mod Acyclic
pub mod Compile
pub mod WellFormed
pub mod Translation
pub mod Compiled
