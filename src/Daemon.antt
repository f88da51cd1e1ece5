-- ===== src/Daemon.antt =====
-- daemon/loop.py: the steps of the daemon's tick on the tables.
pub mod Timeouts
pub mod Dependencies
pub mod Kept
pub mod GivenUp
pub mod Ends
pub mod Due
pub mod Stuck
pub mod Advance
