-- ===== src/Session/Store/Tickets.antt =====
-- internal/session/memory_store.go: a ticket opens one connection, once.
use fluentwork_backend.Session.Types.{Session, Ticket}
use fluentwork_backend.Session.Store.Defs.{MemoryStore, ticket_used}
use fluentwork_backend.Session.Store.Sessions.{
  create_ticket, create_session_with_ticket, consume_ticket,
}
use fluentwork_backend.Session.Store.Jobs.{complete_job, fail_job}
use fluentwork_backend.Session.Store.Users.{
  reassign_user, soft_delete_for_user, restore_deleted_for_user,
}
use fluentwork_backend.Session.Store.Calls.{
  StoreCall, creates, issues, opens, consumes, activates, ends, reviews, reviews_with_cost,
  evaluates, enqueues, claims, completes, fails, reassigns, soft_deletes, restores, terminal,
  store_call, store_calls,
}
use fluentwork_backend.Base.{
  ℕ, ◌<◌, String, ◌≡◌, refl, ◌∙◌, ◌↔◌, inl, inr, true, false, none, some, List, [], ◌∷◌, arith,
  str_eq, eq_iff, leb, if◌then◌else◌, is_some, Bool-cases, Option-cases, Dict, lookup, insert,
  update_all, lookup-insert, lookup-insert_self, lookup-update_all, ok, err, lookup-insert,
}
use fluentwork_backend.Session.Store.Rows.{
  create_session-tickets, mark_session_active-tickets, end_session-tickets,
  mark_session_reviewed-tickets, mark_session_reviewed_with_cost-tickets,
  save_utterance_eval-tickets, enqueue_job-tickets, claim_next_job-tickets, finish_job-tickets,
}

-- The ticket under the hash has been used.
abbrev pub IsUsed : String → Dict Ticket → Type 0
IsUsed hash m = (ticket : Ticket) × (lookup hash m ≡ some ticket) × (is_some ticket.used_at ≡ true)

-- A ticket that is used is used after a write that leaves a used ticket under its hash alone.
insert_other-IsUsed :
    (hash key : String) (new_ticket : Ticket) (m : Dict Ticket)
    → is_some (lookup key m) ≡ false
    → IsUsed hash m
    → IsUsed hash (insert key new_ticket m)
insert_other-IsUsed hash key new_ticket m free (ticket, e, u) =
    (ticket, ground (arith, lookup-insert key hash new_ticket m, eq_iff key hash), u)

insert_again-IsUsed :
    (hash key : String) (new_ticket : Ticket) (m : Dict Ticket)
    → is_some new_ticket.used_at ≡ true
    → IsUsed hash m
    → IsUsed hash (insert key new_ticket m)
insert_again-IsUsed hash key new_ticket m h (ticket, e, u) = elim (Bool-cases (str_eq key hash)) [
  | inl same ↦ (new_ticket, lookup-insert key hash new_ticket m ∙ (rw same refl), h)
  | inr differs ↦ (ticket, lookup-insert key hash new_ticket m ∙ (rw differs e), u)
]

create_ticket-IsUsed :
    (hash : String) (ticket : Ticket) (s : MemoryStore)
    → IsUsed hash s.tickets
    → IsUsed hash (create_ticket ticket s).1.tickets
unfolding create_ticket
create_ticket-IsUsed hash ticket s h = elim (Bool-cases (is_some (lookup ticket.hash s.tickets))) [
  | inl e ↦ rw (e, create_ticket) h
  | inr e ↦ rw (e, create_ticket) (insert_other-IsUsed hash ticket.hash ticket s.tickets e h)
]

create_session_with_ticket-IsUsed :
    (hash : String) (session : Session) (ticket : Ticket) (s : MemoryStore)
    → IsUsed hash s.tickets
    → IsUsed hash (create_session_with_ticket session ticket s).1.tickets
unfolding create_session_with_ticket
create_session_with_ticket-IsUsed hash session ticket s h =
    elim (Bool-cases (is_some (lookup session.id s.sessions))) [
      | inl e ↦ rw (e, create_session_with_ticket) h
      | inr e ↦ elim (Bool-cases (is_some (lookup ticket.hash s.tickets))) [
        | inl t ↦ rw (e, t, create_session_with_ticket) h
        | inr t ↦
            rw (e, t, create_session_with_ticket)
              (insert_other-IsUsed hash ticket.hash ticket s.tickets t h)
      ]
    ]

consume_ticket-IsUsed :
    (hash key : String) (at : ℕ) (s : MemoryStore)
    → IsUsed hash s.tickets
    → IsUsed hash (consume_ticket key at s).1.tickets
unfolding consume_ticket
consume_ticket-IsUsed hash key at s h = elim (Option-cases (lookup key s.tickets)) [
  | inl e ↦ rw (e, consume_ticket) h
  | inr (ticket, e) ↦ elim (Bool-cases (is_some ticket.used_at)) [
    | inl u ↦ rw (e, u, consume_ticket) h
    | inr u ↦ elim (Bool-cases (leb ticket.expires_at at)) [
      | inl x ↦ rw (e, u, x, consume_ticket) h
      | inr x ↦ rw (e, u, x, consume_ticket) (insert_again-IsUsed hash key _ s.tickets refl h)
    ]
  ]
]

update_all-IsUsed :
    (hash : String) (f : Ticket → Ticket) (m : Dict Ticket)
    → ((ticket : Ticket) → (f ticket).used_at ≡ ticket.used_at)
    → IsUsed hash m
    → IsUsed hash (update_all f m)
update_all-IsUsed hash f m same (ticket, e, u) =
    (f ticket, lookup-update_all f hash m ∙ (rw e refl), rw (same ticket) u)

store_call-IsUsed :
    (hash : String) (c : StoreCall) (s : MemoryStore)
    → IsUsed hash s.tickets
    → IsUsed hash (store_call c s).tickets
unfolding store_call complete_job fail_job reassign_user soft_delete_for_user
    restore_deleted_for_user
store_call-IsUsed hash (issues ticket) s h = create_ticket-IsUsed hash ticket s h
store_call-IsUsed hash (opens session ticket) s h =
    create_session_with_ticket-IsUsed hash session ticket s h
store_call-IsUsed hash (consumes key at) s h = consume_ticket-IsUsed hash key at s h
store_call-IsUsed hash (reassigns from_user_id to_user_id now) s h =
    update_all-IsUsed hash
      (λ ticket.
        if str_eq ticket.user_id from_user_id
        then record ticket { user_id = to_user_id }
        else ticket)
      s.tickets (λ ticket. ground arith) h
store_call-IsUsed hash (creates session) s h = rw (create_session-tickets session s) h
store_call-IsUsed hash (activates id at) s h = rw (mark_session_active-tickets id at s) h
store_call-IsUsed hash (ends id abandon duration utterances events at log) s h =
    rw (end_session-tickets id (terminal abandon) duration utterances events at log s) h
store_call-IsUsed hash (reviews id review_json at) s h =
    rw (mark_session_reviewed-tickets id review_json at s) h
store_call-IsUsed hash (reviews_with_cost id review_json at log) s h =
    rw (mark_session_reviewed_with_cost-tickets id review_json at log s) h
store_call-IsUsed hash (evaluates id eval_json) s h =
    rw (save_utterance_eval-tickets id eval_json s) h
store_call-IsUsed hash (enqueues job) s h = rw (enqueue_job-tickets job s) h
store_call-IsUsed hash (claims worker_id at) s h = rw (claim_next_job-tickets worker_id at s) h
store_call-IsUsed hash (completes id at) s h = rw (finish_job-tickets id _ s) h
store_call-IsUsed hash (fails id at err_msg delay) s h = rw (finish_job-tickets id _ s) h
store_call-IsUsed hash (soft_deletes user_id at) s h = h
store_call-IsUsed hash (restores user_id) s h = h

store_calls-IsUsed :
    (hash : String) (cs : List StoreCall) (s : MemoryStore)
    → IsUsed hash s.tickets
    → IsUsed hash (store_calls cs s).tickets
unfolding store_calls
store_calls-IsUsed hash [] s h = h
store_calls-IsUsed hash (c ∷ cs) s h =
    store_calls-IsUsed hash cs (store_call c s) (store_call-IsUsed hash c s h)

consumed-IsUsed :
    (hash : String) (at : ℕ) (s : MemoryStore) (ticket : Ticket)
    → (consume_ticket hash at s).0 ≡ ok ticket
    → IsUsed hash (consume_ticket hash at s).1.tickets
unfolding consume_ticket
consumed-IsUsed hash at s ticket h =
    (ticket, ground (arith, lookup-insert_self hash ticket s.tickets), ground arith)

used_refused :
    (hash : String) (at : ℕ) (s : MemoryStore)
    → IsUsed hash s.tickets
    → consume_ticket hash at s ≡ (err ticket_used, s)
unfolding consume_ticket
used_refused hash at s (ticket, e, u) = rw (e, consume_ticket) (rw u)

-- A ticket is consumed at most once: after a success, and after any further calls of the store at
-- any times, the same ticket is refused as used, and the refusal changes nothing.
pub consume_ticket-once :
    (hash : String) (at later : ℕ) (s : MemoryStore) (ticket : Ticket) (cs : List StoreCall)
    → (consume_ticket hash at s).0 ≡ ok ticket
    → let t = store_calls cs (consume_ticket hash at s).1 in
      consume_ticket hash later t ≡ (err ticket_used, t)
consume_ticket-once hash at later s ticket cs h =
    used_refused hash later _
      (store_calls-IsUsed hash cs (consume_ticket hash at s).1 (consumed-IsUsed hash at s ticket h))

-- A ticket is consumed exactly when it is known, unused and not yet expired, the moment of expiry
-- counting as expired; what is returned is the ticket with the time of its use.
pub consume_ticket-ok_iff :
    (hash : String) (at : ℕ) (s : MemoryStore) (used : Ticket)
    → ((consume_ticket hash at s).0 ≡ ok used) ↔ (
        (ticket : Ticket) × (lookup hash s.tickets ≡ some ticket)
        × (ticket.used_at ≡ none)
        × (at < ticket.expires_at)
        × (used ≡ record ticket { used_at = some at }))
unfolding consume_ticket
consume_ticket-ok_iff hash at s used = (
  λ h. elim (Option-cases (lookup hash s.tickets)) [
    | inl e ↦ absurd (ground arith)
    | inr (ticket, e) ↦ (ticket, e, ground arith, ground arith, ground arith)
  ],
  λ (ticket, e, unused, early, same). ground arith,
)
