-- ===== src/Session/Store/Course.antt =====
-- internal/session/memory_store.go: the moves of a session's status, and the methods that make them.
use fluentwork_backend.Session.Types.{
  Session, Status, created, active, ended, abandoned, reviewed, is_terminal_status, Ticket,
  Utterance, RescueEvent, CostLog,
}
use fluentwork_backend.Session.Store.Defs.{MemoryStore}
use fluentwork_backend.Session.Store.Sessions.{
  create_session, create_session_with_ticket, mark_session_active, end_session,
  mark_session_reviewed, mark_session_reviewed_with_cost, is_open, activate_at, review_at,
  charge_at,
}
use fluentwork_backend.Session.Store.Calls.{terminal}
use fluentwork_backend.Base.{
  ℕ, String, ◌≡◌, refl, sym, ap, ◌∙◌, subst, inl, inr, Bool, true, false, Option, some, List, arith,
  str_eq, eq_iff, is_some, Bool-cases, Option-cases, ℤ, Dict, lookup, insert, update_all,
  lookup-insert, lookup-update_all, lookup-insert,
}

-- The moves of a session's status.
pub data Move : Status → Status → Type 0 where
  activate : Move created active
  end_created : Move created ended
  end_active : Move active ended
  abandon_created : Move created abandoned
  abandon_active : Move active abandoned
  review : Move ended reviewed

pub data Course : Status → Status → Type 0 where
  here : {a : Status} → Course a a
  next : {a b c : Status} → Move a b → Course b c → Course a c

pub Course-trans : {a b c : Status} → Course a b → Course b c → Course a c
Course-trans here q = q
Course-trans (next m p) q = next m (Course-trans p q)

-- Every session stands under its key still, at a status that its own leads to.
abbrev pub KeepsCourse : Dict Session → Dict Session → Type 0
KeepsCourse m m' =
    (id : String) (session : Session)
    → lookup id m ≡ some session
    → (session' : Session) × (lookup id m' ≡ some session') × Course session.status session'.status

pub KeepsCourse-refl : (m : Dict Session) → KeepsCourse m m
KeepsCourse-refl m id session h = (session, h, here)

pub KeepsCourse-trans : (m n o : Dict Session) → KeepsCourse m n → KeepsCourse n o → KeepsCourse m o
KeepsCourse-trans m n o f g id session h =
    let (session', h', p) = f id session h in
    let (session'', h'', q) = g id session' h' in (session'', h'', Course-trans p q)

pub insert-KeepsCourse :
    (key : String) (new_session : Session) (m : Dict Session)
    → ((old : Session) → lookup key m ≡ some old → Course old.status new_session.status)
    → KeepsCourse m (insert key new_session m)
insert-KeepsCourse key new_session m course id session h = elim (Bool-cases (str_eq key id)) [
  | inl e ↦ (
    new_session,
    lookup-insert key id new_session m ∙ (rw e refl),
    course session (rw ((eq_iff key id).0 e) h),
  )
  | inr e ↦ (session, lookup-insert key id new_session m ∙ (rw e h), here)
]

insert_new-KeepsCourse :
    (key : String) (new_session : Session) (m : Dict Session)
    → is_some (lookup key m) ≡ false
    → KeepsCourse m (insert key new_session m)
insert_new-KeepsCourse key new_session m free =
    insert-KeepsCourse key new_session m (λ old e. absurd (cc (free, ap is_some e)))

pub update_all-KeepsCourse :
    (f : Session → Session) (m : Dict Session)
    → ((session : Session) → (f session).status ≡ session.status)
    → KeepsCourse m (update_all f m)
update_all-KeepsCourse f m same id session h = (
  f session,
  lookup-update_all f id m ∙ (rw h refl),
  subst (Course session.status) (sym (same session)) here,
)

pub create_session-KeepsCourse :
    (session : Session) (s : MemoryStore)
    → KeepsCourse s.sessions (create_session session s).1.sessions
unfolding create_session
create_session-KeepsCourse session s = elim (Bool-cases (is_some (lookup session.id s.sessions))) [
  | inl e ↦ rw (e, create_session) (KeepsCourse-refl s.sessions)
  | inr e ↦ rw (e, create_session) (insert_new-KeepsCourse session.id session s.sessions e)
]

pub create_session_with_ticket-KeepsCourse :
    (session : Session) (ticket : Ticket) (s : MemoryStore)
    → KeepsCourse s.sessions (create_session_with_ticket session ticket s).1.sessions
unfolding create_session_with_ticket
create_session_with_ticket-KeepsCourse session ticket s =
    elim (Bool-cases (is_some (lookup session.id s.sessions))) [
      | inl e ↦ rw (e, create_session_with_ticket) (KeepsCourse-refl s.sessions)
      | inr e ↦ elim (Bool-cases (is_some (lookup ticket.hash s.tickets))) [
        | inl t ↦ rw (e, t, create_session_with_ticket) (KeepsCourse-refl s.sessions)
        | inr t ↦
            rw (e, t, create_session_with_ticket)
              (insert_new-KeepsCourse session.id session s.sessions e)
      ]
    ]

activate_at-KeepsCourse :
    (status : Status) (id : String) (session : Session) (at : ℕ) (s : MemoryStore)
    → lookup id s.sessions ≡ some session
    → session.status ≡ status
    → KeepsCourse s.sessions (activate_at status id session at s).1.sessions
unfolding activate_at
activate_at-KeepsCourse created id session at s e k =
    insert-KeepsCourse id _ s.sessions
      λ old h. subst (λ x. Course x active) (ground arith) (next activate here)
activate_at-KeepsCourse _ id session at s e k = KeepsCourse-refl s.sessions

pub review_at-KeepsCourse :
    (status : Status) (id : String) (session : Session) (review_json : String) (at : ℕ)
    (s : MemoryStore)
    → lookup id s.sessions ≡ some session
    → session.status ≡ status
    → KeepsCourse s.sessions (review_at status id session review_json at s).1.sessions
unfolding review_at
review_at-KeepsCourse ended id session review_json at s e k =
    insert-KeepsCourse id _ s.sessions
      λ old h. subst (λ x. Course x reviewed) (ground arith) (next review here)
review_at-KeepsCourse _ id session review_json at s e k = KeepsCourse-refl s.sessions

pub mark_session_active-KeepsCourse :
    (id : String) (at : ℕ) (s : MemoryStore)
    → KeepsCourse s.sessions (mark_session_active id at s).1.sessions
mark_session_active-KeepsCourse id at s = elim (Option-cases (lookup id s.sessions)) [
  | inl e ↦ unfold mark_session_active in rw (e, mark_session_active) (KeepsCourse-refl s.sessions)
  | inr (session, e) ↦
      unfold mark_session_active in
      rw (e, mark_session_active) (activate_at-KeepsCourse session.status id session at s e refl)
]

close_course : (a : Status) (abandon : Bool) → is_open a ≡ true → Course a (terminal abandon)
close_course created true h = next abandon_created here
close_course created false h = next end_created here
close_course active true h = next abandon_active here
close_course active false h = next end_active here
close_course _ _ h = absurd (cc h)

pub end_session-KeepsCourse :
    (id : String) (abandon : Bool) (duration : ℤ) (utterances : List Utterance)
    (events : List RescueEvent) (at : ℕ) (log : Option CostLog) (s : MemoryStore)
    → KeepsCourse s.sessions
        (end_session id (terminal abandon) duration utterances events at log s).1.sessions
unfolding end_session
end_session-KeepsCourse id abandon duration utterances events at log s =
    elim (Option-cases (lookup id s.sessions)) [
      | inl e ↦ rw (e, end_session) (KeepsCourse-refl s.sessions)
      | inr (session, e) ↦ elim (Bool-cases (is_terminal_status session.status)) [
        | inl t ↦ rw (e, t, end_session) (KeepsCourse-refl s.sessions)
        | inr t ↦ elim (Bool-cases (is_open session.status)) [
          | inl o ↦
              rw (e, t, o, end_session)
                (insert-KeepsCourse id _ s.sessions λ old h.
                  subst (λ x. Course x (terminal abandon)) (same_status old session h e)
                    (close_course session.status abandon o))
          | inr o ↦ rw (e, t, o, end_session) (KeepsCourse-refl s.sessions)
        ]
      ]
    ]
  where
    same_status :
        (old session : Session)
        → lookup id s.sessions ≡ some old
        → lookup id s.sessions ≡ some session
        → session.status ≡ old.status
    same_status old session h e = ground arith

pub mark_session_reviewed-KeepsCourse :
    (id review_json : String) (at : ℕ) (s : MemoryStore)
    → KeepsCourse s.sessions (mark_session_reviewed id review_json at s).1.sessions
unfolding mark_session_reviewed
mark_session_reviewed-KeepsCourse id review_json at s = elim (Option-cases (lookup id s.sessions)) [
  | inl e ↦ rw (e, mark_session_reviewed) (KeepsCourse-refl s.sessions)
  | inr (session, e) ↦
      rw (e, mark_session_reviewed)
        (review_at-KeepsCourse session.status id session review_json at s e refl)
]

-- A ledger row changes no session.
charge_at-sessions :
    (status : Status) (log : CostLog) (s : MemoryStore)
    → (charge_at status log s).sessions ≡ s.sessions
unfolding charge_at
charge_at-sessions ended log s = ground arith
charge_at-sessions _ log s = refl

pub mark_session_reviewed_with_cost-KeepsCourse :
    (id review_json : String) (at : ℕ) (log : CostLog) (s : MemoryStore)
    → KeepsCourse s.sessions (mark_session_reviewed_with_cost id review_json at log s).1.sessions
unfolding mark_session_reviewed_with_cost
mark_session_reviewed_with_cost-KeepsCourse id review_json at log s =
    elim (Option-cases (lookup id s.sessions)) [
      | inl e ↦ rw (e, mark_session_reviewed_with_cost) (KeepsCourse-refl s.sessions)
      | inr (session, e) ↦
          rw (e, mark_session_reviewed_with_cost)
            (subst (KeepsCourse s.sessions)
              (sym (
                charge_at-sessions session.status log
                  (review_at session.status id session review_json at s).1))
              (review_at-KeepsCourse session.status id session review_json at s e refl))
    ]
