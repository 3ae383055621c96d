-- ===== src/Corpus/Store/Blocks.antt =====
-- internal/corpus/memory_store.go: the methods that change phrase blocks.
use fluentwork_backend.Corpus.Types.{PhraseBlock, BlockState, new, state_eq, BlockEdit}
use fluentwork_backend.Corpus.Schedule.{normalize}
use fluentwork_backend.Corpus.Store.Defs.{
  MemoryStore, live_block, natural_key_eq, compare_blocks_lt, is_live_of, put_block,
}
use fluentwork_backend.Base.{
  ℕ, String, Bool, ◌&&◌, Option, none, some, List, [], ◌∷◌, ◌++◌, str_eq, ltb, leb, ◌==◌,
  if◌then◌else◌, is_some, ℤ, pos, pos_part, ltb_ℤ, length, take, keep_if, any, str_lt, Dict, lookup,
  update_all, values, sort_by, add_time,
}

-- A method that changes one live block of the user, or fails with ErrNotFound.
abbrev pub change_block :
    String → String → (PhraseBlock → PhraseBlock) → MemoryStore → Option PhraseBlock × MemoryStore
change_block user_id block_id change s = elim (live_block user_id block_id s) [
  | none ↦ (none, s)
  | some block ↦ (some (change block), put_block block_id (change block) s)
]

-- `UpdateBlock`: the texts and tags of the argument, with all else as it is stored.
abbrev pub with_edits : PhraseBlock → PhraseBlock → PhraseBlock
with_edits block existing = record block {
  created_at = existing.created_at;
  state = existing.state;
  success_streak = existing.success_streak;
  next_due_at = existing.next_due_at;
  ease_factor = existing.ease_factor;
  real_use_count = existing.real_use_count;
  total_uses = existing.total_uses;
  last_used_at = existing.last_used_at;
  is_favorite = existing.is_favorite;
  pinned_at = existing.pinned_at;
  source_session_id = existing.source_session_id;
  deleted_at = none;
}

unfoldable pub update_block : PhraseBlock → MemoryStore → Option PhraseBlock × MemoryStore
update_block block = change_block block.user_id block.id (with_edits block)

-- `SetFavorite`
unfoldable pub set_favorite :
    String → String → Bool → Option ℕ → ℕ → MemoryStore → Option PhraseBlock × MemoryStore
set_favorite user_id block_id is_favorite pinned_at updated_at =
    change_block user_id block_id λ block. record block {
      is_favorite = is_favorite;
      pinned_at = pinned_at;
      updated_at = updated_at;
    }

-- `SoftDeleteBlock`
unfoldable pub soft_delete_block :
    String → String → ℕ → MemoryStore → Option PhraseBlock × MemoryStore
soft_delete_block user_id block_id deleted_at =
    change_block user_id block_id
      λ block. record block { deleted_at = some deleted_at; updated_at = deleted_at }

-- `UpdateSchedule`
unfoldable pub update_schedule :
    String → String → BlockState → ℤ → ℕ → ℕ → MemoryStore → Option PhraseBlock × MemoryStore
update_schedule user_id block_id state success_streak next_due_at updated_at =
    change_block user_id block_id λ block. record block {
      state = state;
      success_streak = success_streak;
      next_due_at = next_due_at;
      updated_at = updated_at;
    }

-- `ResetSchedule`
unfoldable pub reset_schedule : String → String → ℕ → MemoryStore → Option PhraseBlock × MemoryStore
reset_schedule user_id block_id at s =
    change_block user_id block_id
      (λ block. record block {
        state = new;
        success_streak = pos 0;
        next_due_at = add_time at (normalize s.schedule).training_interval;
        updated_at = at;
      })
      s

-- `SaveBlockEdit`
unfoldable pub save_block_edit : BlockEdit → MemoryStore → Option PhraseBlock × MemoryStore
save_block_edit edit s = elim (live_block edit.user_id edit.block_id s) [
  | none ↦ (none, s)
  | some block ↦
      let changed = record block {
        expression_version = edit.version;
        updated_at = edit.created_at;
      } in
      (some changed, put_block edit.block_id changed (record s { edits = s.edits ++ edit ∷ [] }))
]

-- `ReassignUser`
unfoldable pub reassign_user : String → String → MemoryStore → MemoryStore
reassign_user from_user_id to_user_id s = record s {
  blocks =
      update_all
        (λ block.
          if str_eq block.user_id from_user_id
          then record block { user_id = to_user_id }
          else block)
        s.blocks;
}

-- A loop over all blocks that changes those that pass a test, and counts them.
abbrev pub change_where :
    (PhraseBlock → Bool) → (PhraseBlock → PhraseBlock) → MemoryStore → ℕ × MemoryStore
change_where test change s = (
  length (keep_if test (values s.blocks)),
  record s { blocks = update_all (λ block. if test block then change block else block) s.blocks },
)

-- `SweepOverdue`
unfoldable pub sweep_overdue : String → ℕ → ℕ → MemoryStore → ℕ × MemoryStore
sweep_overdue user_id due_before at =
    change_where (λ block. is_live_of user_id block && ltb block.next_due_at due_before)
      (λ block. record block { next_due_at = at; updated_at = at })

-- `SoftDeleteAllForUser`
unfoldable pub soft_delete_all_for_user : String → ℕ → MemoryStore → ℕ × MemoryStore
soft_delete_all_for_user user_id deleted_at =
    change_where (is_live_of user_id)
      (λ block. record block { deleted_at = some deleted_at; updated_at = deleted_at })

-- `RestoreDeletedForUser`
unfoldable pub restore_deleted_for_user : String → MemoryStore → ℕ × MemoryStore
restore_deleted_for_user user_id =
    change_where (λ block. str_eq block.user_id user_id && is_some block.deleted_at)
      (λ block. record block { deleted_at = none })

-- The loop of `SaveAcceptedBlocks` that looks for a block with the same natural key; "" if none.
unfoldable pub existing_id : PhraseBlock → Dict PhraseBlock → String
existing_id block [] = ""
existing_id block ((id, current) ∷ rest) =
    if natural_key_eq current block then id else existing_id block rest

-- The stored block, undeleted with the texts of the accepted one.
abbrev pub undelete : PhraseBlock → PhraseBlock → PhraseBlock
undelete block current = record current {
  deleted_at = none;
  intent_zh = block.intent_zh;
  expression_en = block.expression_en;
  anchor_user_said = block.anchor_user_said;
  scene_tag = block.scene_tag;
  function_tag = block.function_tag;
  source_session_id = block.source_session_id;
  updated_at = block.updated_at;
}

-- `if block.ExpressionVersion < 1`
abbrev pub with_version : PhraseBlock → PhraseBlock
with_version block =
    if ltb_ℤ block.expression_version (pos 1)
    then record block { expression_version = pos 1 }
    else block

-- The body of the loop of `SaveAcceptedBlocks`: the saved block, and the store. A missing key reads
-- as the argument, where Go would read a zero block; `existing_id` is always a key.
unfoldable pub save_accepted : PhraseBlock → MemoryStore → PhraseBlock × MemoryStore
unfolding existing_id
save_accepted accepted s =
    let block = with_version accepted in
    let found = existing_id block s.blocks in
    if str_eq found "" then (block, put_block block.id block s) else elim (lookup found s.blocks) [
      | none ↦ (block, s)
      | some current ↦
          if is_some current.deleted_at
          then (undelete block current, put_block found (undelete block current) s)
          else (current, s)
    ]

unfoldable pub accept_each : List PhraseBlock → MemoryStore → List PhraseBlock × MemoryStore
accept_each [] s = ([], s)
accept_each (block ∷ blocks) s =
    let (saved, s') = save_accepted block s in
    let (rest, s'') = accept_each blocks s' in (saved ∷ rest, s'')

-- `SaveAcceptedBlocks`
unfoldable pub save_accepted_blocks :
    List PhraseBlock → MemoryStore → List PhraseBlock × MemoryStore
unfolding save_accepted accept_each
save_accepted_blocks blocks s =
    let (saved, s') = accept_each blocks s in (sort_by compare_blocks_lt saved, s')

-- `ListDueBlocks`: the order of the due blocks.
unfoldable pub due_before : PhraseBlock → PhraseBlock → Bool
due_before a b =
    if a.next_due_at == b.next_due_at then str_lt a.id b.id else ltb a.next_due_at b.next_due_at

unfoldable pub is_due : String → ℕ → List BlockState → PhraseBlock → Bool
is_due user_id now states block =
    is_live_of user_id block && any (state_eq block.state) states && leb block.next_due_at now

unfoldable pub list_due_blocks : String → ℕ → List BlockState → ℤ → MemoryStore → List PhraseBlock
list_due_blocks user_id now states limit s =
    let items = sort_by due_before (keep_if (is_due user_id now states) (values s.blocks)) in
    if ltb_ℤ (pos 0) limit then take (pos_part limit) items else items
