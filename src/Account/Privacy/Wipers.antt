-- ===== src/Account/Privacy/Wipers.antt =====
-- internal/corpus/privacy_wiper.go and internal/session/privacy_wiper.go: the wipers of two modules, over their in-memory
-- stores. The rows of the other modules are a type of their own.
use fluentwork_backend.Base.{◌+◌, ok}
use fluentwork_backend.Session.Store as SessionStore
use fluentwork_backend.Corpus.Store as CorpusStore
use fluentwork_backend.Account.Privacy.{DataWiper}

-- The business rows, by module.
pub record Modules (D : Type 0) : Type 0 where
  pub corpus : CorpusStore.MemoryStore
  pub sessions : SessionStore.MemoryStore
  pub others : D

module _ {D : Type 0} where
  -- `PrivacyWiper` of corpus
  abbrev pub corpus_wiper : DataWiper (Modules D)
  corpus_wiper = record {
    entity_type = "phrase_blocks";
    wipe = λ user_id at rows.
        let (blocks, s) = CorpusStore.soft_delete_all_for_user user_id at rows.corpus in
        let (feedback, t) = CorpusStore.soft_delete_feedback_for_user user_id at s in
        (ok (blocks + feedback), record rows { corpus = t });
    restore = λ user_id rows.
        let (blocks, s) = CorpusStore.restore_deleted_for_user user_id rows.corpus in
        let (feedback, t) = CorpusStore.restore_feedback_for_user user_id s in
        (ok (blocks + feedback), record rows { corpus = t });
  }

  -- `PrivacyWiper` of session
  abbrev pub session_wiper : DataWiper (Modules D)
  session_wiper = record {
    entity_type = "practice_sessions";
    wipe = λ user_id at rows.
        let (n, s) = SessionStore.soft_delete_for_user user_id at rows.sessions in
        (ok n, record rows { sessions = s });
    restore = λ user_id rows.
        let (n, s) = SessionStore.restore_deleted_for_user user_id rows.sessions in
        (ok n, record rows { sessions = s });
  }
