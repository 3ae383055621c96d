-- ===== src/Corpus.antt =====
-- The phrase corpus (internal/corpus): the learner's phrase blocks, the ladder of spaced repetition,
-- and the in-memory store.
pub mod Types
pub mod Schedule
pub mod Store
pub mod Hits
