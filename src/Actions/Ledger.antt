-- ===== src/Actions/Ledger.antt =====
-- The durable ledger of actions: the operations of `ActionLedger` of
-- astrbot_ex/core/actions/ledger.py on its database.
pub mod Db
pub mod Admit
pub mod Report
pub mod Tables
pub mod Recovery
pub mod Calls
pub mod Invariant
pub mod Evolution
pub mod Admission
pub mod Faults
pub mod Reservations
pub mod Writer
mod Examples
