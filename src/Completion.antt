-- ===== src/Completion.antt =====
-- completion.py: which end of an attempt may go to review.
pub mod Policy
pub mod Evidence
pub mod Decision
pub mod Reviewed
pub mod Effective
