-- ===== src/Options.antt =====
-- The options of a task, as texts that a caller may give in several spellings: what each
-- normaliser accepts, and that what it returns is a canonical text.
pub mod Profile
pub mod Completion
pub mod Wait
pub mod Role
pub mod Environment
pub mod Canonical
pub mod Budget
