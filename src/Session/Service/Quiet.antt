-- ===== src/Session/Service/Quiet.antt =====
-- internal/session/service.go: an end that leaves nothing to review.
use fluentwork_backend.Session.Types.{
  Session, Status, created, active, ended, abandoned, is_terminal_status, Utterance, RescueEvent,
  CostLog,
}
use fluentwork_backend.Session.Store.{MemoryStore, get_session, end_session, close_session, is_open}
use fluentwork_backend.Session.Service.{
  Service, ServiceState, EndRequest, end, was_ended, after_end, end_open, abandons, has_user_speech,
  normalize_end_utterances, normalize_end_rescue_events, build_voice_cost_log, response_of,
}
use fluentwork_backend.Base.{
  ℕ, ◌+◌, String, ◌≡◌, refl, sym, subst, true, false, not, ◌||◌, Option, some, List, str_eq,
  if◌then◌else◌, ℤ, pos, ltb_ℤ, length, trim_space, lookup, lookup-insert_self, ok,
}

open_lem :
    (status : Status)
    → is_open status ≡ true
    → (was_ended status ≡ false) × (is_terminal_status status ≡ false)
unfolding is_terminal_status
open_lem created h = (refl, refl)
open_lem active h = (refl, refl)
open_lem _ h = absurd (cc h)

-- The session, as the store's EndSession leaves it.
abbrev pub closed : Session → Status → ℤ → ℕ → Session
closed session status duration_sec at = record session {
  status = status;
  duration_sec = if ltb_ℤ duration_sec (pos 0) then pos 0 else duration_sec;
  updated_at = at;
}

end_session_lem :
    (id : String) (status : Status) (duration_sec : ℤ) (rows : List Utterance)
    (events : List RescueEvent) (at : ℕ) (log : Option CostLog) (s : MemoryStore)
    (session : Session)
    → lookup id s.sessions ≡ some session
    → is_open session.status ≡ true
    → end_session id status duration_sec rows events at log s ≡ (
      ok (closed session status duration_sec at, rows, false),
      close_session id session status duration_sec rows events at log s,
    )
unfolding end_session
end_session_lem id status duration_sec rows events at log s session e o =
    rw (e, (open_lem session.status o).1, o, end_session)

close_session_lem :
    (id : String) (session : Session) (status : Status) (duration_sec : ℤ) (rows : List Utterance)
    (events : List RescueEvent) (at : ℕ) (log : Option CostLog) (s : MemoryStore)
    → let t = close_session id session status duration_sec rows events at log s in
      (t.jobs ≡ s.jobs)
      × (lookup id t.sessions ≡ some (closed session status duration_sec at))
      × (lookup id t.utterances ≡ some rows)
unfolding close_session
close_session_lem id session status duration_sec rows events at log s =
    (refl, lookup-insert_self id _ s.sessions, lookup-insert_self id rows s.utterances)

-- The session is closed with this transcript, and the outbox is as it was.
abbrev pub ClosesQuietly : String → Session → List Utterance → MemoryStore → MemoryStore → Type 0
ClosesQuietly id session rows s t =
    (t.jobs ≡ s.jobs) × (lookup id t.sessions ≡ some session) × (lookup id t.utterances ≡ some rows)

end_open-ClosesQuietly :
    (env : Service) (existing : Session) (session_id : String) (req : EndRequest) (now : ℕ)
    (st : ServiceState) (rows : List Utterance)
    → lookup session_id st.store.sessions ≡ some existing
    → is_open existing.status ≡ true
    → normalize_end_utterances env.new_id st.ids session_id req.utterances now ≡ ok rows
    → (abandons req || not (has_user_speech rows)) ≡ true
    → let session =
        closed existing (if abandons req then abandoned else ended) req.duration_sec now in
      let (answer, t) = end_open env existing session_id req now st in
      (answer ≡ ok (response_of session rows false true))
      × ClosesQuietly session_id session rows st.store t.store
unfolding end_open after_end
end_open-ClosesQuietly env existing session_id req now st rows e o accepted quiet =
    subst
      (λ x.
        (x.0 ≡ ok (response_of session rows false true))
        × ClosesQuietly session_id session rows st.store x.1.store)
      (sym result)
      (
        refl,
        close_session_lem session_id existing status req.duration_sec rows events now log st.store,
      )
  where
    status : Status
    status = if abandons req then abandoned else ended

    session : Session
    session = closed existing status req.duration_sec now

    events : List RescueEvent
    events =
        normalize_end_rescue_events env.new_id (st.ids + length rows) existing req.rescue_events now

    log : Option CostLog
    log =
        build_voice_cost_log existing req.voice_usage
          (env.new_id (st.ids + length rows + length events)) now

    result : end_open env existing session_id req now st ≡ (
      ok (response_of session rows false true),
      record {
        store =
            close_session session_id existing status req.duration_sec rows events now log st.store;
        ids = st.ids + length rows + length events + 1;
      },
    )
    result = rw (
      accepted,
      end_session_lem session_id status req.duration_sec rows events now log st.store existing e o,
      quiet,
      end_open,
    )

-- An end that abandons an open session, or that carries an accepted transcript in which the user says
-- nothing, closes the session under the status that its reason calls for and stores the transcript,
-- answers that there is no review, and enqueues no job.
pub end-ClosesQuietly :
    (env : Service) (req : EndRequest) (now : ℕ) (st : ServiceState) (existing : Session)
    (rows : List Utterance)
    → str_eq (trim_space req.session_id) "" ≡ false
    → lookup (trim_space req.session_id) st.store.sessions ≡ some existing
    → is_open existing.status ≡ true
    → normalize_end_utterances env.new_id st.ids (trim_space req.session_id) req.utterances now
      ≡ ok rows
    → (abandons req || not (has_user_speech rows)) ≡ true
    → let session =
        closed existing (if abandons req then abandoned else ended) req.duration_sec now in
      let (answer, t) = end env req now st in
      (answer ≡ ok (response_of session rows false true))
      × ClosesQuietly (trim_space req.session_id) session rows st.store t.store
unfolding end get_session
end-ClosesQuietly env req now st existing rows named e o accepted quiet =
    rw (named, e, (open_lem existing.status o).0, end)
      (end_open-ClosesQuietly env existing (trim_space req.session_id) req now st rows e o accepted
        quiet)
