-- ===== src/Tasks.antt =====
-- The tasks of src/tasks/tasks.hpp.
pub mod Task
pub mod Limits
pub mod Execute
pub mod Build
pub mod Edges
pub mod Built
pub mod Grown
pub mod Added
pub mod Appended
pub mod Fresh
pub mod BuildGraph
pub mod Plain
pub mod Views
pub mod Region
pub mod Step
pub mod Finish
