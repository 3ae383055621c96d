-- ===== src/Session/Service/Replays.antt =====
-- internal/session/service.go: an end that is sent again, and an end that enqueues nothing.
use fluentwork_backend.Session.Types.{
  Session, Status, ended, Utterance, JobType, session_finished, session_eval,
}
use fluentwork_backend.Session.Store.{
  StoreError, duplicate_job, rows_of, MemoryStore, get_session, list_utterances, enqueue_job,
}
use fluentwork_backend.Session.Service.{
  store_error, ServiceError, Service, ServiceState, EndRequest, EndResponse, ensure_enqueued,
  enqueue_eval, enqueue_review, replay_end, end, was_ended, response_of, has_user_speech,
}
use fluentwork_backend.Base.{
  ℕ, String, ◌≡◌, refl, ap, ◌∙◌, inl, inr, Bool, true, false, some, List, arith, str_eq, Bool-cases,
  ltb_ℤ, trim_space, lookup, sort_by, Result, ok, err, Result-cases,
}

-- Sessions, tickets, transcripts, rescue events and ledger rows are the same; only the outbox may
-- have grown.
pub record SameRecords (s t : MemoryStore) : Type 0 where
  pub sessions : t.sessions ≡ s.sessions
  pub tickets : t.tickets ≡ s.tickets
  pub utterances : t.utterances ≡ s.utterances
  pub cost_logs : t.cost_logs ≡ s.cost_logs
  pub rescue_events : t.rescue_events ≡ s.rescue_events

SameRecords-refl : (s : MemoryStore) → SameRecords s s
SameRecords-refl s = record {
  sessions = refl;
  tickets = refl;
  utterances = refl;
  cost_logs = refl;
  rescue_events = refl;
}

SameRecords-trans : (s t u : MemoryStore) → SameRecords s t → SameRecords t u → SameRecords s u
SameRecords-trans s t u h k = record {
  sessions = k.sessions ∙ h.sessions;
  tickets = k.tickets ∙ h.tickets;
  utterances = k.utterances ∙ h.utterances;
  cost_logs = k.cost_logs ∙ h.cost_logs;
  rescue_events = k.rescue_events ∙ h.rescue_events;
}

ensure_enqueued-SameRecords :
    (env : Service) (job_type : JobType) (session_id : String) (now : ℕ) (st : ServiceState)
    → SameRecords st.store (ensure_enqueued env job_type session_id now st).1.store
unfolding ensure_enqueued enqueue_job
ensure_enqueued-SameRecords env job_type session_id now st = record {
  sessions = ground arith;
  tickets = ground arith;
  utterances = ground arith;
  cost_logs = ground arith;
  rescue_events = ground arith;
}

enqueue_eval-SameRecords :
    (env : Service) (session_id : String) (now : ℕ) (st : ServiceState)
    → SameRecords st.store (enqueue_eval env session_id now st).store
unfolding enqueue_eval
enqueue_eval-SameRecords env session_id now st =
    elim (Bool-cases (str_eq (trim_space session_id) "")) [
      | inl e ↦ rw (e, enqueue_eval) (SameRecords-refl st.store)
      | inr e ↦
          rw (e, enqueue_eval)
            (ensure_enqueued-SameRecords env session_eval (trim_space session_id) now st)
    ]

-- What a review that is enqueued answers and leaves.
enqueue_review-SameRecords :
    (env : Service) (session_id : String) (now : ℕ) (response : EndResponse) (st : ServiceState)
    → SameRecords st.store (enqueue_review env session_id now response st).1.store
unfolding enqueue_review
enqueue_review-SameRecords env session_id now response st =
    elim (Result-cases (ensure_enqueued env session_finished session_id now st).0) [
      | inr (_, bad) ↦
          rw (bad, enqueue_review)
            (ensure_enqueued-SameRecords env session_finished session_id now st)
      | inl (_, good) ↦ elim (Bool-cases env.eval) [
        | inr e ↦
            rw (good, e, enqueue_review)
              (ensure_enqueued-SameRecords env session_finished session_id now st)
        | inl e ↦
            rw (good, e, enqueue_review)
              (SameRecords-trans st.store _ _
                (ensure_enqueued-SameRecords env session_finished session_id now st)
                (enqueue_eval-SameRecords env session_id now _))
      ]
    ]

replay_end-SameRecords :
    (status : Status) (env : Service) (existing : Session) (session_id : String) (now : ℕ)
    (saved : List Utterance) (st : ServiceState)
    → SameRecords st.store (replay_end status env existing session_id now saved st).1.store
unfolding replay_end
replay_end-SameRecords ended env existing session_id now saved st =
    elim (Bool-cases (has_user_speech saved)) [
      | inl e ↦ rw (e, replay_end) (enqueue_review-SameRecords env session_id now _ st)
      | inr e ↦ rw (e, replay_end) (SameRecords-refl st.store)
    ]
replay_end-SameRecords _ env existing session_id now saved st = SameRecords-refl st.store

-- An answer of a replay repeats the duration and status that are stored, and says so; the only error
-- is a job id that is taken.
abbrev pub Repeats : Session → Result ServiceError EndResponse → Type 0
Repeats existing (err e) = e ≡ store_error duplicate_job
Repeats existing (ok response) =
    (response.already_ended ≡ true)
    × (response.duration_sec ≡ existing.duration_sec)
    × (response.status ≡ existing.status)

ensure_enqueued_error :
    (env : Service) (job_type : JobType) (session_id : String) (now : ℕ) (st : ServiceState)
    (e : StoreError)
    → (ensure_enqueued env job_type session_id now st).0 ≡ err e
    → e ≡ duplicate_job
unfolding ensure_enqueued enqueue_job
ensure_enqueued_error env job_type session_id now st e h = ground arith

list_utterances_known :
    (id : String) (session : Session) (s : MemoryStore)
    → lookup id s.sessions ≡ some session
    → (saved : List Utterance) × (list_utterances id s ≡ ok saved)
unfolding list_utterances
list_utterances_known id session s e =
    (sort_by (λ a b. ltb_ℤ a.seq b.seq) (rows_of (lookup id s.utterances)), rw e refl)

enqueue_review-Repeats :
    (env : Service) (existing : Session) (session_id : String) (now : ℕ) (saved : List Utterance)
    (skipped : Bool) (st : ServiceState)
    → Repeats existing
        (enqueue_review env session_id now (response_of existing saved true skipped) st).0
unfolding enqueue_review
enqueue_review-Repeats env existing session_id now saved skipped st =
    elim (Result-cases (ensure_enqueued env session_finished session_id now st).0) [
      | inr (e, bad) ↦
          rw (bad, enqueue_review)
            (ap store_error (ensure_enqueued_error env session_finished session_id now st e bad))
      | inl (_, good) ↦ rw (good, enqueue_review) (refl, refl, refl)
    ]

replay_end-Repeats :
    (status : Status) (env : Service) (existing : Session) (session_id : String) (now : ℕ)
    (saved : List Utterance) (st : ServiceState)
    → Repeats existing (replay_end status env existing session_id now saved st).0
unfolding replay_end
replay_end-Repeats ended env existing session_id now saved st =
    elim (Bool-cases (has_user_speech saved)) [
      | inl e ↦
          rw (e, replay_end) (enqueue_review-Repeats env existing session_id now saved false st)
      | inr e ↦ rw (e, replay_end) (refl, refl, refl)
    ]
replay_end-Repeats _ env existing session_id now saved st = (refl, refl, refl)

-- An end that is sent for a session that was ended, reviewed or abandoned before, whatever it carries,
-- changes no session, ticket, transcript, rescue event or ledger row. It is answered: the session was
-- ended already, with its stored duration and status; only a new job's id that is taken is an error.
pub end-replay :
    (env : Service) (req : EndRequest) (now : ℕ) (st : ServiceState) (existing : Session)
    → lookup (trim_space req.session_id) st.store.sessions ≡ some existing
    → was_ended existing.status ≡ true
    → str_eq (trim_space req.session_id) "" ≡ false
    → SameRecords st.store (end env req now st).1.store × Repeats existing (end env req now st).0
unfolding end get_session
end-replay env req now st existing e was named =
    let (saved, listed) = list_utterances_known (trim_space req.session_id) existing st.store e in
    rw (named, e, was, listed, end)
      (
        replay_end-SameRecords existing.status env existing (trim_space req.session_id) now saved
            st,
        replay_end-Repeats existing.status env existing (trim_space req.session_id) now saved st,
      )
