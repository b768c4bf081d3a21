-- ===== src/Decision.antt =====
-- The decision side of the controller: astrbot_ex/core/decision.
pub mod Goal
pub mod Journal
