-- ===== src/Models.antt =====
-- models.py: the records of the store, the phases of a task and the sets of phases.
-- Times (`utcnow_iso` text of one fixed width, whose order as text is the order in time) are
-- whole seconds; a float number of seconds is one of `Seconds`.
mod Rows
mod Phases
pub use Phases.*
pub use Rows.*
pub mod Workflows
