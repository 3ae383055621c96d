-- ===== src/Corpus/Store/Defs.antt =====
-- internal/corpus/memory_store.go: the store's state and its lookups.
use fluentwork_backend.Corpus.Types.{PhraseBlock, BlockUse, Feedback, RealUse, BlockEdit}
use fluentwork_backend.Corpus.Schedule.{Schedule, normalize}
use fluentwork_backend.Base.{
  String, Bool, true, false, not, ◌&&◌, Option, none, some, List, [], str_eq, ltb, if◌then◌else◌,
  is_some, pos, str_lt, Dict, lookup, insert,
}

pub record MemoryStore : Type 0 where
  pub schedule : Schedule
  pub blocks : Dict PhraseBlock
  pub uses : Dict BlockUse
  pub feedback : List Feedback
  pub real_uses : List RealUse
  pub edits : List BlockEdit

-- `NewMemoryStore`, whose schedule is Go's zero value.
unfoldable pub empty_store : MemoryStore
empty_store = record {
  schedule = record {
    promote_streak = pos 0;
    training_interval = pos 0;
    automated_interval = pos 0;
    automated_review_interval = pos 0;
    fail_interval = pos 0;
  };
  blocks = [];
  uses = [];
  feedback = [];
  real_uses = [];
  edits = [];
}

-- `SetSchedule`
unfoldable pub set_schedule : Schedule → MemoryStore → MemoryStore
set_schedule schedule s = record s { schedule = normalize schedule }

-- `block.UserID == userID && block.DeletedAt == nil`
abbrev pub is_live_of : String → PhraseBlock → Bool
is_live_of user_id block = str_eq block.user_id user_id && not (is_some block.deleted_at)

-- The guard of the methods on one block: `!ok || block.UserID != userID || block.DeletedAt != nil`.
unfoldable pub live_block : String → String → MemoryStore → Option PhraseBlock
live_block user_id block_id s = elim (lookup block_id s.blocks) [
  | none ↦ none
  | some block ↦ if is_live_of user_id block then some block else none
]

-- `GetBlock`
unfoldable pub get_block : String → String → MemoryStore → Option PhraseBlock
unfolding live_block
get_block user_id block_id s = live_block user_id block_id s

-- `PeekBlock`
unfoldable pub peek_block : String → MemoryStore → Option PhraseBlock
peek_block block_id s = lookup block_id s.blocks

-- `derefString`
abbrev pub deref_string : Option String → String
deref_string none = ""
deref_string (some s) = s

-- `sameNaturalKey`
unfoldable pub natural_key_eq : PhraseBlock → PhraseBlock → Bool
natural_key_eq left right =
    str_eq left.user_id right.user_id
    && str_eq (deref_string left.source_session_id) (deref_string right.source_session_id)
    && str_eq left.expression_en right.expression_en
    && str_eq left.anchor_user_said right.anchor_user_said
    && str_eq left.scene_tag right.scene_tag
    && str_eq left.function_tag right.function_tag

-- `compareBlocks(left, right) < 0`, with `pinRank` and `favRank`: pinned blocks first, then
-- favourites, then the newest, then by id from the last, then by text.
unfoldable pub compare_blocks_lt : PhraseBlock → PhraseBlock → Bool
compare_blocks_lt left right =
    if is_some left.pinned_at && not (is_some right.pinned_at)
    then true
    else if is_some right.pinned_at && not (is_some left.pinned_at)
    then false
    else if left.is_favorite && not right.is_favorite
    then true
    else if right.is_favorite && not left.is_favorite
    then false
    else if ltb right.updated_at left.updated_at
    then true
    else if ltb left.updated_at right.updated_at
    then false
    else if str_lt right.id left.id
    then true
    else if str_lt left.id right.id
    then false
    else str_lt left.expression_en right.expression_en

-- `s.blocks[id] = block`
abbrev pub put_block : String → PhraseBlock → MemoryStore → MemoryStore
put_block block_id block s = record s { blocks = insert block_id block s.blocks }
