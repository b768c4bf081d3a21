-- ===== src/Decision/Goal.antt =====
-- The goal manager: astrbot_ex/core/decision/goal_manager.py.
pub mod Defs
pub mod Ops
pub mod Requests
pub mod Events
pub mod Invariant
pub mod Authority
pub mod Once
pub mod Lease
mod Examples
