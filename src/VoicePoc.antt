-- ===== src/VoicePoc.antt =====
-- internal/voicepoc: the measurements of speech recognition.
pub mod Wer
