-- ===== src/Voice.antt =====
-- The voice gateway (internal/voicegateway): the state of one turn, the silence detector behind
-- the rescue ladder, and the numbering of audio frames.
pub mod Turn
pub mod Silence
pub mod Seq
pub mod Audio
