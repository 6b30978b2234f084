-- ===== src/Tasks.antt =====
-- review_agent/tasks: the queue of tasks and the worker that takes them.
pub mod Queue
pub mod Worker
