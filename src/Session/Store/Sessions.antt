-- ===== src/Session/Store/Sessions.antt =====
-- internal/session/memory_store.go: sessions, tickets and transcripts.
use fluentwork_backend.Session.Types.{
  Session, Status, created, active, ended, reviewed, is_terminal_status, Ticket, Utterance,
  RescueEvent, CostLog,
}
use fluentwork_backend.Session.Store.Defs.{
  MemoryStore, StoreError, not_found, ticket_used, ticket_expired, conflict, duplicate_session,
  duplicate_ticket, rows_of, put_session,
}
use fluentwork_backend.Base.{
  ℕ, String, Bool, true, false, Option, none, some, List, [], ◌∷◌, map, str_eq, leb, if◌then◌else◌,
  is_some, ℤ, pos, ltb_ℤ, Dict, lookup, insert, sort_by, Result, ok, err,
}

-- `CreateSession`
unfoldable pub create_session : Session → MemoryStore → Result StoreError (Unit {0}) × MemoryStore
create_session session s =
    if is_some (lookup session.id s.sessions)
    then (err duplicate_session, s)
    else (ok tt, put_session session.id session s)

-- `GetSession`
unfoldable pub get_session : String → MemoryStore → Result StoreError Session
get_session id s = elim (lookup id s.sessions) [ none ↦ err not_found | some session ↦ ok session ]

-- `CreateTicket`
unfoldable pub create_ticket : Ticket → MemoryStore → Result StoreError (Unit {0}) × MemoryStore
create_ticket ticket s =
    if is_some (lookup ticket.hash s.tickets)
    then (err duplicate_ticket, s)
    else (ok tt, record s { tickets = insert ticket.hash ticket s.tickets })

-- `CreateSessionWithTicket`
unfoldable pub create_session_with_ticket :
    Session → Ticket → MemoryStore → Result StoreError (Unit {0}) × MemoryStore
create_session_with_ticket session ticket s =
    if is_some (lookup session.id s.sessions)
    then (err duplicate_session, s)
    else if is_some (lookup ticket.hash s.tickets)
    then (err duplicate_ticket, s)
    else (
      ok tt,
      record s {
        sessions = insert session.id session s.sessions;
        tickets = insert ticket.hash ticket s.tickets;
      },
    )

-- `GetTicketByHash`
unfoldable pub get_ticket_by_hash : String → MemoryStore → Result StoreError Ticket
get_ticket_by_hash hash s = elim (lookup hash s.tickets) [
  | none ↦ err not_found
  | some ticket ↦ ok ticket
]

-- `ConsumeTicket`
unfoldable pub consume_ticket : String → ℕ → MemoryStore → Result StoreError Ticket × MemoryStore
consume_ticket hash at s = elim (lookup hash s.tickets) [
  | none ↦ (err not_found, s)
  | some ticket ↦
      let used = record ticket { used_at = some at } in
      if is_some ticket.used_at
      then (err ticket_used, s)
      else if leb ticket.expires_at at
      then (err ticket_expired, s)
      else (ok used, record s { tickets = insert hash used s.tickets })
]

-- The `switch` of `MarkSessionActive`.
unfoldable pub activate_at :
    Status → String → Session → ℕ → MemoryStore → Result StoreError Session × MemoryStore
activate_at active session_id session at s = (ok session, s)
activate_at created session_id session at s =
    let activated = record session { status = active; updated_at = at } in
    (ok activated, put_session session_id activated s)
activate_at _ session_id session at s = (err conflict, s)

-- `MarkSessionActive`
unfoldable pub mark_session_active :
    String → ℕ → MemoryStore → Result StoreError Session × MemoryStore
unfolding activate_at
mark_session_active session_id at s = elim (lookup session_id s.sessions) [
  | none ↦ (err not_found, s)
  | some session ↦ activate_at session.status session_id session at s
]

-- `session.Status == StatusCreated || session.Status == StatusActive`
abbrev pub is_open : Status → Bool
is_open created = true
is_open active = true
is_open _ = false

abbrev pub with_session_id : String → RescueEvent → RescueEvent
with_session_id session_id event = record event { session_id = session_id }

-- The end of a session that is open: status, transcript, rescue events and ledger row.
unfoldable pub close_session :
    String
    → Session
    → Status
    → ℤ
    → List Utterance
    → List RescueEvent
    → ℕ
    → Option CostLog
    → MemoryStore
    → MemoryStore
close_session session_id session terminal_status duration_sec utterances rescue_events at cost_log
      s =
    record s {
      sessions =
          insert session_id
            (record session {
              status = terminal_status;
              duration_sec = if ltb_ℤ duration_sec (pos 0) then pos 0 else duration_sec;
              updated_at = at;
            })
            s.sessions;
      utterances = insert session_id utterances s.utterances;
      rescue_events =
          insert session_id (map (with_session_id session_id) rescue_events) s.rescue_events;
      cost_logs = elim cost_log [ none ↦ s.cost_logs | some log ↦ insert log.id log s.cost_logs ];
    }

-- `EndSession`: the session, its utterances and whether it was ended already.
unfoldable pub end_session :
    String
    → Status
    → ℤ
    → List Utterance
    → List RescueEvent
    → ℕ
    → Option CostLog
    → MemoryStore
    → Result StoreError (Session × List Utterance × Bool) × MemoryStore
unfolding close_session
end_session session_id terminal_status duration_sec utterances rescue_events at cost_log s =
    elim (lookup session_id s.sessions) [
      | none ↦ (err not_found, s)
      | some session ↦
          if is_terminal_status session.status
          then (ok (session, rows_of (lookup session_id s.utterances), true), s)
          else if is_open session.status
          then (
            ok (
              record session {
                status = terminal_status;
                duration_sec = if ltb_ℤ duration_sec (pos 0) then pos 0 else duration_sec;
                updated_at = at;
              },
              utterances,
              false,
            ),
            close_session session_id session terminal_status duration_sec utterances rescue_events
                at cost_log s,
          )
          else (err conflict, s)
    ]

-- The `switch` of `MarkSessionReviewed`.
unfoldable pub review_at :
    Status → String → Session → String → ℕ → MemoryStore → Result StoreError Session × MemoryStore
review_at reviewed session_id session review_json at s = (ok session, s)
review_at ended session_id session review_json at s =
    let done = record session { status = reviewed; review_json = review_json; updated_at = at } in
    (ok done, put_session session_id done s)
review_at _ session_id session review_json at s = (err conflict, s)

-- `MarkSessionReviewed`
unfoldable pub mark_session_reviewed :
    String → String → ℕ → MemoryStore → Result StoreError Session × MemoryStore
unfolding review_at
mark_session_reviewed session_id review_json at s = elim (lookup session_id s.sessions) [
  | none ↦ (err not_found, s)
  | some session ↦ review_at session.status session_id session review_json at s
]

-- The ledger row of a review, unless its id is there already.
abbrev pub add_cost_log : CostLog → MemoryStore → MemoryStore
add_cost_log log s =
    if is_some (lookup log.id s.cost_logs)
    then s
    else record s { cost_logs = insert log.id log s.cost_logs }

-- The ledger row goes with the review of a session that was ended, and with no other outcome.
unfoldable pub charge_at : Status → CostLog → MemoryStore → MemoryStore
charge_at ended log s = add_cost_log log s
charge_at _ log s = s

-- `MarkSessionReviewedWithCost`: only a session that was ended, and is now reviewed, has its row written.
unfoldable pub mark_session_reviewed_with_cost :
    String → String → ℕ → CostLog → MemoryStore → Result StoreError Session × MemoryStore
unfolding review_at charge_at
mark_session_reviewed_with_cost session_id review_json at cost_log s =
    elim (lookup session_id s.sessions) [
      | none ↦ (err not_found, s)
      | some session ↦
          let (r, s') = review_at session.status session_id session review_json at s in
          (r, charge_at session.status cost_log s')
    ]

-- `ListUtterances`
unfoldable pub list_utterances : String → MemoryStore → Result StoreError (List Utterance)
list_utterances session_id s =
    if is_some (lookup session_id s.sessions)
    then ok (sort_by (λ a b. ltb_ℤ a.seq b.seq) (rows_of (lookup session_id s.utterances)))
    else err not_found

-- `ListRescueEvents`
unfoldable pub list_rescue_events : String → MemoryStore → Result StoreError (List RescueEvent)
list_rescue_events session_id s =
    if is_some (lookup session_id s.sessions)
    then ok (sort_by (λ a b. ltb_ℤ a.seq b.seq) (rows_of (lookup session_id s.rescue_events)))
    else err not_found

-- The inner loop of `SaveUtteranceEval`: the rows with the first match changed, if there is one.
unfoldable pub eval_rows : String → String → List Utterance → Option (List Utterance)
eval_rows utterance_id eval_json [] = none
eval_rows utterance_id eval_json (u ∷ rows) =
    let rest = eval_rows utterance_id eval_json rows in
    if str_eq u.id utterance_id
    then some (record u { llm_eval_json = some eval_json } ∷ rows)
    else elim rest [ none ↦ none | some rows' ↦ some (u ∷ rows') ]

-- The outer loop of `SaveUtteranceEval`.
unfoldable pub eval_sessions :
    String → String → Dict (List Utterance) → Option (Dict (List Utterance))
unfolding eval_rows
eval_sessions utterance_id eval_json [] = none
eval_sessions utterance_id eval_json ((session_id, rows) ∷ rest) =
    let others = eval_sessions utterance_id eval_json rest in
    elim (eval_rows utterance_id eval_json rows) [
      | none ↦ elim others [ none ↦ none | some rest' ↦ some ((session_id, rows) ∷ rest') ]
      | some rows' ↦ some ((session_id, rows') ∷ rest)
    ]

-- `SaveUtteranceEval`
unfoldable pub save_utterance_eval :
    String → String → MemoryStore → Result StoreError (Unit {0}) × MemoryStore
unfolding eval_sessions
save_utterance_eval utterance_id eval_json s =
    elim (eval_sessions utterance_id eval_json s.utterances) [
      | none ↦ (err not_found, s)
      | some utterances ↦ (ok tt, record s { utterances = utterances })
    ]
