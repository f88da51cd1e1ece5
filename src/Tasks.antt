-- ===== src/Tasks.antt =====
-- storage/tasks.py: `TaskRepository`. Each method is an action on the database; `now` is what
-- `utcnow_iso` returns, and a method that reads the clock twice takes two times. The children hold
-- the methods by group, and what is proved of them.
pub mod Select
pub mod Attempts
pub mod Create
pub mod Mark
pub mod Fields
pub mod Retry
pub mod Queries
pub mod Calls
pub mod Found
pub mod Reopen
pub mod Atomic
pub mod Inserted
pub mod Consistent
pub mod Preserved
pub mod Moves
pub mod Diagram
pub mod Steps
pub mod Watch
pub mod Outcome
pub mod Frame
pub mod Cleanup
pub mod Retried
