-- ===== src/Dag.antt =====
-- The task framework, shutils/dag.
pub mod Graph
pub mod State
pub mod Queue
pub mod WhiteBoard
pub mod Contexts
pub mod Mask
pub mod Task
pub mod Executor
