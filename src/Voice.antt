-- ===== src/Voice.antt =====
-- The voice channel: astrbot_ex/core/voice.
pub mod Gate
