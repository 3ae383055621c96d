-- ===== src/Examples.antt =====
-- Runs of the models of the components at concrete inputs.
pub mod Voice
pub mod Corpus
pub mod Session
pub mod Service
pub mod VoicePoc
pub mod Account
pub mod AiCost
pub mod Topic
pub mod Drill
