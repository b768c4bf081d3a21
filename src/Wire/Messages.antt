-- ===== src/Wire/Messages.antt =====
-- The messages that are parsed from JSON and printed to it: astrbot_ex/core/actions/models.py and
-- astrbot_ex/core/decision/models.py.
pub mod Commands
pub mod Goals
pub mod Feedback
pub mod Again
