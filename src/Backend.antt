-- ===== src/Backend.antt =====
-- internal/backend: the realizing side of the store server.
pub mod UserSet
pub mod Graph
pub mod Analyze
pub mod MutexMap
pub mod Planner
mod Tests
