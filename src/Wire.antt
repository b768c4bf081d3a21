-- ===== src/Wire.antt =====
-- The values that come over the wire and the checks on them: astrbot_ex/core/actions/models.py and
-- astrbot_ex/core/decision/models.py.
pub mod Json
pub mod Budget
pub mod Fields
pub mod Messages
pub mod Registry
pub mod Returns
mod Examples
