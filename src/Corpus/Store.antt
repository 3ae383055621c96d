-- ===== src/Corpus/Store.antt =====
-- internal/corpus/memory_store.go: the process-local store of phrase blocks. The mutex makes each
-- method one step: a function from the store to its result and the new store. `none` stands for
-- ErrNotFound; no other error occurs. Copies made by `cloneBlock` are the values themselves.
mod Defs
mod Blocks
mod Uses
mod Feedback
pub mod Tenancy
pub mod Replay
pub mod Credits
unfoldable pub use Defs.{
  live_block, empty_store, set_schedule, get_block, peek_block, natural_key_eq, compare_blocks_lt,
}
pub use Defs.*
unfoldable pub use Blocks.{
  update_block, set_favorite, soft_delete_block, reassign_user, update_schedule, reset_schedule,
  save_block_edit, sweep_overdue, soft_delete_all_for_user, restore_deleted_for_user, existing_id,
  save_accepted, accept_each, save_accepted_blocks, list_due_blocks, due_before, is_due,
}
pub use Blocks.*
unfoldable pub use Uses.{
  use_key, sorted_hits, credit_hit, record_hit, record_each, has_real_use, record_real_use,
  real_use_eq, count_up, record_hits, record_real_uses, count_real_uses_by_source,
}
pub use Uses.*
unfoldable pub use Feedback.{
  is_recorded, has_feedback, save_feedback, count_feedback, soft_delete_feedback_for_user,
  restore_feedback_for_user,
}
pub use Feedback.*
