-- ===== src/Corpus/Types.antt =====
-- internal/corpus/types.go and the rows of hits_service.go and memory_store.go.
use fluentwork_backend.Base.{ℕ, String, Bool, true, false, ◌||◌, Option, str_eq, ℤ}

-- The column `state`, with the program's three constants and any other text.
pub data BlockState : Type 0 where
  new training automated : BlockState
  other : String → BlockState

unfoldable pub state_eq : BlockState → BlockState → Bool
state_eq new new = true
state_eq training training = true
state_eq automated automated = true
state_eq (other s) (other t) = str_eq s t
state_eq _ _ = false

-- The float64 `EaseFactor` is stored and copied, never computed with: it stands here by its bits.
pub record PhraseBlock : Type 0 where
  pub id : String
  pub user_id : String
  pub intent_zh : String
  pub expression_en : String
  pub expression_version : ℤ
  pub anchor_user_said : String
  pub scene_tag : String
  pub function_tag : String
  pub state : BlockState
  pub success_streak : ℤ
  pub next_due_at : ℕ
  pub ease_factor : ℕ
  pub real_use_count : ℤ
  pub total_uses : ℤ
  pub last_used_at : Option ℕ
  pub is_favorite : Bool
  pub pinned_at : Option ℕ
  pub source_session_id : Option String
  pub deleted_at : Option ℕ
  pub created_at : ℕ
  pub updated_at : ℕ

pub record BlockEdit : Type 0 where
  pub id : String
  pub user_id : String
  pub block_id : String
  pub version : ℤ
  pub old_expression : String
  pub new_expression : String
  pub created_at : ℕ

pub record RealUse : Type 0 where
  pub id : String
  pub user_id : String
  pub block_id : String
  pub source : String
  pub ref_id : String
  pub used_at : ℕ

pub record Feedback : Type 0 where
  pub id : String
  pub user_id : String
  pub block_id : String
  pub reason : String
  pub deleted_at : Option ℕ
  pub created_at : ℕ
  pub already_recorded : Bool

pub record Hit : Type 0 where
  pub block_id : String
  pub turn_id : String
  pub detected_at_ms : ℤ

-- `phraseBlockUse`
pub record BlockUse : Type 0 where
  pub user_id : String
  pub session_id : String
  pub turn_id : String
  pub block_id : String
  pub used_at_ms : ℤ

-- `ValidFeedbackReason`
unfoldable pub valid_feedback_reason : String → Bool
valid_feedback_reason reason =
    str_eq reason "not_idiomatic" || str_eq reason "not_useful" || str_eq reason "wrong_meaning"
