-- ===== src/Actions/Ledger/Invariant.antt =====
-- The invariant of the ledger's database (astrbot_ex/core/actions/ledger.py): who may hold a
-- resource, which commands have a stop proof, and how the rows follow from the log of events.
pub mod Log
pub mod Holds
pub mod Writes
pub mod Kept
pub mod Runs
