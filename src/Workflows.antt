-- ===== src/Workflows.antt =====
-- workflows/store.py and workflows/control.py: `WorkflowRepository`, and the cancellation of a workflow.
pub mod Store
pub mod NodeStore
pub mod Control
pub mod Nodes
pub mod Cancelled
pub mod Settled
