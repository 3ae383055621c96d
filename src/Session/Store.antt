-- ===== src/Session/Store.antt =====
-- internal/session/memory_store.go: the process-local store of sessions. The mutex makes each method
-- one step, a function from the store to its result and the new store. The copies made by the
-- `clone` functions are the values themselves.
mod Defs
mod Sessions
mod Jobs
mod Users
mod Calls
pub mod Course
pub mod Lifecycle
mod Rows
pub mod Tickets
pub mod Claims
pub mod Leases
unfoldable pub use Defs.{empty_store}
pub use Defs.*
unfoldable pub use Sessions.{
  create_session, get_session, create_ticket, create_session_with_ticket, get_ticket_by_hash,
  consume_ticket, mark_session_active, activate_at, end_session, close_session, eval_rows,
  eval_sessions, mark_session_reviewed, review_at, charge_at, mark_session_reviewed_with_cost,
  list_utterances, list_rescue_events, save_utterance_eval,
}
pub use Sessions.*
unfoldable pub use Jobs.{
  enqueue_job, has_session_job, claimable_at, claim_next_job, complete_job, fail_job, better,
  select_job, is_before,
}
pub use Jobs.*
unfoldable pub use Users.{
  reassign_user, soft_delete_for_user, restore_deleted_for_user, list_sessions, is_listed, is_newer,
}
pub use Users.*
unfoldable pub use Calls.{store_call, store_calls}
pub use Calls.*
