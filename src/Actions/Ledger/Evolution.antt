-- ===== src/Actions/Ledger/Evolution.antt =====
-- How the row of one command evolves under the calls of the ledger
-- (astrbot_ex/core/actions/ledger.py).
pub mod Restart
pub mod Rows
