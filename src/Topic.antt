-- ===== src/Topic.antt =====
-- internal/topic: the daily topic cards, their check-ins and the streak.
pub mod Store
pub mod Service
pub mod Streaks
pub mod Wiped
