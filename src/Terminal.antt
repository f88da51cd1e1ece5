-- ===== src/Terminal.antt =====
-- terminal_receipts.py and terminal_arbitration.py: the receipts that end an attempt, read from the
-- text that an executor prints, and what completion makes of them.
pub mod Status
pub mod Payload
pub mod Structured
pub mod Scan
pub mod Wrapped
pub mod Envelope
pub mod Protocol
pub mod Derived
pub mod Words
pub mod Accepted
pub mod RoundTrip
pub mod Candidates
pub mod Checked
