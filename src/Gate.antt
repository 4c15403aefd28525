-- ===== src/Gate.antt =====
-- glassbox/gate.py, the risk gate: its data, its checks, and their evaluation.
pub mod Context
pub mod Checks
pub mod Verdict
pub mod Admission
pub mod Approval
