-- ===== src/Session/Service/End.antt =====
-- internal/session/service.go and voice_cost.go, with `EnqueueEval` of internal/review/service.go: the
-- end of a session.
use fluentwork_backend.Session.Types.{
  Session, Status, ended, abandoned, reviewed, Job, JobType, session_finished, session_eval,
  pending, processing, done, Utterance, CostLog,
}
use fluentwork_backend.Session.Store.{
  StoreError, not_found, conflict, get_session, list_utterances, end_session, has_session_job,
  enqueue_job,
}
use fluentwork_backend.Session.Service.Types.{
  ServiceError, invalid_argument, api_not_found, api_conflict, store_error, Service, ServiceState,
  VoiceUsageItem, EndRequest, EndResponse,
}
use fluentwork_backend.Session.Service.Transcript.{
  has_user_speech, normalize_end_utterances, normalize_end_rescue_events,
}
use fluentwork_backend.Session.Service.Continue.{lookup_failure}
use fluentwork_backend.Base.{
  ℕ, ◌+◌, ◌/◌, String, Bool, true, false, not, ◌||◌, Option, none, some, List, [], ◌∷◌, str_eq,
  if◌then◌else◌, pos, pos_part, length, trim_space, Result, ok, err,
}

-- `nullableUserID`
unfoldable pub nullable_user_id : String → Option String
nullable_user_id id = if str_eq (trim_space id) "" then none else some id

-- `buildVoiceCostLog`, with the id that newID makes. The sum of the milliseconds stays below 2^63.
unfoldable pub build_voice_cost_log : Session → Option VoiceUsageItem → String → ℕ → Option CostLog
unfolding nullable_user_id
build_voice_cost_log session none id at = none
build_voice_cost_log session (some usage) id at = some (record {
  id = id;
  user_id = nullable_user_id session.user_id;
  user_id_anonymized = none;
  task_type = "voice.duplex";
  model = trim_space usage.model;
  tokens_in = pos 0;
  tokens_out = pos 0;
  audio_sec = pos ((pos_part usage.uplink_ms + pos_part usage.downlink_ms) / 1000);
  chars = pos 0;
  cost_micro_yuan = pos 0;
  created_at = at;
})

-- The job that `enqueueSessionFinished` and `EnqueueEval` insert.
abbrev pub new_job : String → String → JobType → ℕ → Job
new_job id session_id job_type now = record {
  id = id;
  session_id = session_id;
  job_type = job_type;
  status = pending;
  attempts = 0;
  available_at = now;
  locked_at = none;
  locked_by = none;
  last_error = none;
  created_at = now;
  updated_at = now;
}

-- A job of the session that is not failed: `ensureSessionFinishedEnqueued` and `EnqueueEval` insert
-- one only where there is none.
unfoldable pub ensure_enqueued :
    Service → JobType → String → ℕ → ServiceState → Result StoreError (Unit {0}) × ServiceState
ensure_enqueued env job_type session_id now st =
    let (r, store) = enqueue_job (new_job (env.new_id st.ids) session_id job_type now) st.store in
    if has_session_job session_id job_type (pending ∷ processing ∷ done ∷ []) st.store
    then (ok tt, st)
    else (r, record { store = store; ids = st.ids + 1 })

-- `EnqueueEval`, whose error is only logged.
unfoldable pub enqueue_eval : Service → String → ℕ → ServiceState → ServiceState
unfolding ensure_enqueued
enqueue_eval env raw_id now st =
    let session_id = trim_space raw_id in
    let (_, st') = ensure_enqueued env session_eval session_id now st in
    if str_eq session_id "" then st else st'

-- The last steps of `End`, for a session with speech in it.
unfoldable pub enqueue_review :
    Service
    → String
    → ℕ
    → EndResponse
    → ServiceState
    → Result ServiceError EndResponse × ServiceState
unfolding ensure_enqueued enqueue_eval
enqueue_review env session_id now response st =
    let (r, st') = ensure_enqueued env session_finished session_id now st in
    elim r [
      | err e ↦ (err (store_error e), st')
      | ok _ ↦ (ok response, if env.eval then enqueue_eval env session_id now st' else st')
    ]

abbrev pub response_of : Session → List Utterance → Bool → Bool → EndResponse
response_of session saved already_ended review_skipped = record {
  session_id = session.id;
  status = session.status;
  duration_sec = session.duration_sec;
  utterance_count = length saved;
  already_ended = already_ended;
  review_skipped = review_skipped;
}

-- `End` of a session that was ended, reviewed or abandoned before, and whose transcript is read.
unfoldable pub replay_end :
    Status
    → Service
    → Session
    → String
    → ℕ
    → List Utterance
    → ServiceState
    → Result ServiceError EndResponse × ServiceState
unfolding enqueue_review
replay_end abandoned env existing session_id now saved st =
    (ok (response_of existing saved true true), st)
replay_end ended env existing session_id now saved st =
    if not (has_user_speech saved)
    then (ok (response_of existing saved true true), st)
    else enqueue_review env session_id now (response_of existing saved true false) st
replay_end _ env existing session_id now saved st = (ok (response_of existing saved true false), st)

-- The errors of `EndSession`, as `End` answers them.
unfoldable pub end_failure : StoreError → ServiceError
end_failure not_found = api_not_found "session not found"
end_failure conflict = api_conflict "session cannot be ended"
end_failure e = store_error e

-- `End` after the store's `EndSession`.
unfoldable pub after_end :
    Service
    → Bool
    → ℕ
    → Result StoreError (Session × List Utterance × Bool)
    → ServiceState
    → Result ServiceError EndResponse × ServiceState
unfolding end_failure enqueue_review
after_end env abandon now (err e) st = (err (end_failure e), st)
after_end env abandon now (ok (session, saved, already_ended)) st =
    if abandon || not (has_user_speech saved)
    then (ok (response_of session saved already_ended true), st)
    else enqueue_review env session.id now (response_of session saved already_ended false) st

-- `strings.TrimSpace(req.Reason) == ReasonAbandoned`
abbrev pub abandons : EndRequest → Bool
abandons req = str_eq (trim_space req.reason) "abandoned"

-- `End` of any other session.
unfoldable pub end_open :
    Service
    → Session
    → String
    → EndRequest
    → ℕ
    → ServiceState
    → Result ServiceError EndResponse × ServiceState
unfolding after_end build_voice_cost_log
end_open env existing session_id req now st =
    elim (normalize_end_utterances env.new_id st.ids session_id req.utterances now) [
      | err e ↦ (err e, st)
      | ok utterances ↦
          let first_event = st.ids + length utterances in
          let rescue_events =
            normalize_end_rescue_events env.new_id first_event existing req.rescue_events now in
          let log_id = first_event + length rescue_events in
          let (r, store) =
            end_session session_id (if abandons req then abandoned else ended) req.duration_sec
              utterances rescue_events now
              (build_voice_cost_log existing req.voice_usage (env.new_id log_id) now) st.store in
          after_end env (abandons req) now r (record { store = store; ids = log_id + 1 })
    ]

abbrev pub was_ended : Status → Bool
was_ended abandoned = true
was_ended reviewed = true
was_ended ended = true
was_ended _ = false

-- `End`
unfoldable pub end :
    Service → EndRequest → ℕ → ServiceState → Result ServiceError EndResponse × ServiceState
unfolding end_open replay_end
end env req now st =
    let session_id = trim_space req.session_id in
    if str_eq session_id ""
    then (err (invalid_argument "session_id is required"), st)
    else elim (get_session session_id st.store) [
      | err e ↦ (err (lookup_failure e), st)
      | ok existing ↦
          if was_ended existing.status
          then elim (list_utterances session_id st.store) [
            | err e ↦ (err (store_error e), st)
            | ok saved ↦ replay_end existing.status env existing session_id now saved st
          ]
          else end_open env existing session_id req now st
    ]
