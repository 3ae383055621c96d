-- ===== src/Drill.antt =====
-- internal/drill: the ledger of attempts and the appeals against them.
pub mod Records
pub mod Appeals
