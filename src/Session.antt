-- ===== src/Session.antt =====
-- Practice sessions (internal/session): sessions, one-time tickets, transcripts and the outbox of
-- review jobs in the in-memory store, and the service on top of it.
pub mod Types
pub mod Store
pub mod Service
