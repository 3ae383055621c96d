-- ===== src/Corpus/Store/Feedback.antt =====
-- internal/corpus/memory_store.go: quality signals on blocks.
use fluentwork_backend.Corpus.Types.{Feedback}
use fluentwork_backend.Corpus.Store.Defs.{MemoryStore}
use fluentwork_backend.Corpus.Store.Uses.{count_up}
use fluentwork_backend.Base.{
  ℕ, String, Bool, true, false, not, ◌&&◌, ◌||◌, none, some, List, [], ◌∷◌, ◌++◌, map, str_eq,
  if◌then◌else◌, is_some, length, keep_if, Dict,
}

-- A live row of the same user, block and reason.
unfoldable pub is_recorded : Feedback → Feedback → Bool
is_recorded feedback existing =
    str_eq existing.user_id feedback.user_id
    && str_eq existing.block_id feedback.block_id
    && str_eq existing.reason feedback.reason
    && not (is_some existing.deleted_at)

unfoldable pub has_feedback : Feedback → List Feedback → Bool
has_feedback feedback [] = false
has_feedback feedback (existing ∷ rest) =
    is_recorded feedback existing || has_feedback feedback rest

-- `SaveFeedback`: whether this call created the row.
unfoldable pub save_feedback : Feedback → MemoryStore → Bool × MemoryStore
save_feedback feedback s =
    if has_feedback feedback s.feedback
    then (false, s)
    else (true, record s { feedback = s.feedback ++ record feedback { deleted_at = none } ∷ [] })

-- `CountFeedback`
unfoldable pub count_feedback : String → List Feedback → Dict ℕ → Dict ℕ
count_feedback user_id [] out = out
count_feedback user_id (row ∷ rows) out = count_feedback user_id rows (
    if str_eq row.user_id user_id && not (is_some row.deleted_at)
    then count_up row.reason out
    else out)

-- The rows that the two methods below change.
abbrev pub is_live_row : String → Feedback → Bool
is_live_row user_id row = str_eq row.user_id user_id && not (is_some row.deleted_at)

abbrev pub is_deleted_row : String → Feedback → Bool
is_deleted_row user_id row = str_eq row.user_id user_id && is_some row.deleted_at

-- `SoftDeleteFeedbackForUser`
unfoldable pub soft_delete_feedback_for_user : String → ℕ → MemoryStore → ℕ × MemoryStore
soft_delete_feedback_for_user user_id deleted_at s = (
  length (keep_if (is_live_row user_id) s.feedback),
  record s {
    feedback =
        map
          (λ row.
            if is_live_row user_id row then record row { deleted_at = some deleted_at } else row)
          s.feedback;
  },
)

-- `RestoreFeedbackForUser`
unfoldable pub restore_feedback_for_user : String → MemoryStore → ℕ × MemoryStore
restore_feedback_for_user user_id s = (
  length (keep_if (is_deleted_row user_id) s.feedback),
  record s {
    feedback =
        map (λ row. if is_deleted_row user_id row then record row { deleted_at = none } else row)
          s.feedback;
  },
)
