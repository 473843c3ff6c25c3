-- ===== src/Tasks.antt =====
-- internal/tasks: the changes that a task update takes, and the task service.
pub mod Changes
pub mod World
pub mod Service
pub mod Sample
pub mod Work
