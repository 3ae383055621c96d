-- ===== src/AiCost.antt =====
-- internal/aicost and internal/orchestrator/pricing.go: the ledger of what calls of AI providers cost, and the prices.
pub mod Ledger
pub mod Pricing
