-- ===== src/Manifests.antt =====
-- workflows/schema.py: the validation of workflow manifests.
pub mod Acyclic
pub mod Limits
pub mod Forbidden
pub mod Coordination
pub mod Node
pub mod Validate
pub mod Bounds
pub mod Accepted
pub mod Manifest
