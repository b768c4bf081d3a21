-- ===== src/Actions.antt =====
-- The action side of the controller: astrbot_ex/core/actions.
pub mod Error
pub mod Status
pub mod Checks
pub mod Command
pub mod Ledger
mod Examples
