-- ===== src/Session/Service.antt =====
-- internal/session/service.go: the service over the session store.
mod Types
mod Transcript
mod Entry
mod Continue
mod End
pub mod Transcripts
pub mod Reports
pub mod Access
pub mod Continuation
pub mod Replays
pub mod Quiet
pub use Types.*
unfoldable pub use Transcript.{
  cap_runes, has_user_speech, utterance_problem, normalize_each, normalize_end_utterances,
  rescue_path, rescue_step, rescue_each, normalize_end_rescue_events,
}
pub use Transcript.*
unfoldable pub use Entry.{
  is_material_id, is_scene_type, normalize_optional_material_id, normalize_scene_type,
  normalize_session_length, create_session_for, create, ticket_failure, redeem_ticket, turn_limit,
  material_context, activation_failure, activate_session,
}
pub use Entry.*
unfoldable pub use Continue.{
  lookup_failure, continuation_limit, tail_of, continue_from, continuation_context,
}
pub use Continue.*
unfoldable pub use End.{
  nullable_user_id, build_voice_cost_log, ensure_enqueued, enqueue_eval, enqueue_review, replay_end,
  end_failure, after_end, end_open, end,
}
pub use End.*
