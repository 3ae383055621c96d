-- ===== src/Session/Store/Lifecycle.antt =====
-- internal/session/memory_store.go: the life of a session, from created to reviewed or abandoned.
use fluentwork_backend.Session.Types.{Session, Status, abandoned, reviewed, Ticket, Job}
use fluentwork_backend.Session.Store.Defs.{MemoryStore}
use fluentwork_backend.Session.Store.Sessions.{create_ticket, consume_ticket, save_utterance_eval}
use fluentwork_backend.Session.Store.Jobs.{
  enqueue_job, claim_next_job, complete_job, fail_job, finish_job,
}
use fluentwork_backend.Session.Store.Users.{
  reassign_user, soft_delete_for_user, restore_deleted_for_user, is_kept_of, is_deleted_of,
}
use fluentwork_backend.Session.Store.Calls.{
  StoreCall, creates, issues, opens, consumes, activates, ends, reviews, reviews_with_cost,
  evaluates, enqueues, claims, completes, fails, reassigns, soft_deletes, restores, store_call,
  store_calls,
}
use fluentwork_backend.Session.Store.Course.{
  activate, end_created, end_active, abandon_created, abandon_active, review, Course, here, next,
  KeepsCourse, KeepsCourse-refl, KeepsCourse-trans, update_all-KeepsCourse,
  create_session-KeepsCourse, create_session_with_ticket-KeepsCourse,
  mark_session_active-KeepsCourse, end_session-KeepsCourse, mark_session_reviewed-KeepsCourse,
  mark_session_reviewed_with_cost-KeepsCourse,
}
use fluentwork_backend.Base.{
  ℕ, String, ◌≡◌, refl, none, some, List, [], ◌∷◌, arith, str_eq, if◌then◌else◌, Dict, lookup,
}

create_ticket-sessions :
    (ticket : Ticket) (s : MemoryStore) → (create_ticket ticket s).1.sessions ≡ s.sessions
unfolding create_ticket
create_ticket-sessions ticket s = ground arith

consume_ticket-sessions :
    (hash : String) (at : ℕ) (s : MemoryStore) → (consume_ticket hash at s).1.sessions ≡ s.sessions
unfolding consume_ticket
consume_ticket-sessions hash at s = ground arith

save_utterance_eval-sessions :
    (id eval_json : String) (s : MemoryStore)
    → (save_utterance_eval id eval_json s).1.sessions ≡ s.sessions
unfolding save_utterance_eval
save_utterance_eval-sessions id eval_json s = ground arith

enqueue_job-sessions : (job : Job) (s : MemoryStore) → (enqueue_job job s).1.sessions ≡ s.sessions
unfolding enqueue_job
enqueue_job-sessions job s = ground arith

claim_next_job-sessions :
    (worker_id : String) (at : ℕ) (s : MemoryStore)
    → (claim_next_job worker_id at s).1.sessions ≡ s.sessions
unfolding claim_next_job
claim_next_job-sessions worker_id at s = ground arith

finish_job-sessions :
    (id : String) (change : Job → Job) (s : MemoryStore)
    → (finish_job id change s).1.sessions ≡ s.sessions
finish_job-sessions id change s = ground arith

keeps_same : (m m' : Dict Session) → m' ≡ m → KeepsCourse m m'
keeps_same m m' e = rw e (KeepsCourse-refl m)

store_call-KeepsCourse :
    (c : StoreCall) (s : MemoryStore) → KeepsCourse s.sessions (store_call c s).sessions
unfolding store_call complete_job fail_job reassign_user soft_delete_for_user
    restore_deleted_for_user
store_call-KeepsCourse (creates session) s = create_session-KeepsCourse session s
store_call-KeepsCourse (opens session ticket) s =
    create_session_with_ticket-KeepsCourse session ticket s
store_call-KeepsCourse (activates id at) s = mark_session_active-KeepsCourse id at s
store_call-KeepsCourse (ends id abandon duration utterances events at log) s =
    end_session-KeepsCourse id abandon duration utterances events at log s
store_call-KeepsCourse (reviews id review_json at) s =
    mark_session_reviewed-KeepsCourse id review_json at s
store_call-KeepsCourse (reviews_with_cost id review_json at log) s =
    mark_session_reviewed_with_cost-KeepsCourse id review_json at log s
store_call-KeepsCourse (reassigns from_user_id to_user_id now) s =
    update_all-KeepsCourse
      (λ session.
        if str_eq session.user_id from_user_id
        then record session { user_id = to_user_id; updated_at = now }
        else session)
      s.sessions (λ session. ground arith)
store_call-KeepsCourse (soft_deletes user_id at) s =
    update_all-KeepsCourse
      (λ session.
        if is_kept_of user_id session
        then record session { deleted_at = some at; updated_at = at }
        else session)
      s.sessions (λ session. ground arith)
store_call-KeepsCourse (restores user_id) s =
    update_all-KeepsCourse
      (λ session.
        if is_deleted_of user_id session then record session { deleted_at = none } else session)
      s.sessions (λ session. ground arith)
store_call-KeepsCourse (issues ticket) s = keeps_same s.sessions _ (create_ticket-sessions ticket s)
store_call-KeepsCourse (consumes hash at) s =
    keeps_same s.sessions _ (consume_ticket-sessions hash at s)
store_call-KeepsCourse (evaluates id eval_json) s =
    keeps_same s.sessions _ (save_utterance_eval-sessions id eval_json s)
store_call-KeepsCourse (enqueues job) s = keeps_same s.sessions _ (enqueue_job-sessions job s)
store_call-KeepsCourse (claims worker_id at) s =
    keeps_same s.sessions _ (claim_next_job-sessions worker_id at s)
store_call-KeepsCourse (completes id at) s = keeps_same s.sessions _ (finish_job-sessions id _ s)
store_call-KeepsCourse (fails id at err_msg delay) s =
    keeps_same s.sessions _ (finish_job-sessions id _ s)

-- Under any calls of the store, in any order, a session stays under its key, and its status moves
-- along created, active, ended, reviewed or from created or active to abandoned, never back.
pub store_calls-KeepsCourse :
    (cs : List StoreCall) (s : MemoryStore) → KeepsCourse s.sessions (store_calls cs s).sessions
unfolding store_calls
store_calls-KeepsCourse [] s = KeepsCourse-refl s.sessions
store_calls-KeepsCourse (c ∷ cs) s =
    KeepsCourse-trans s.sessions (store_call c s).sessions _ (store_call-KeepsCourse c s)
      (store_calls-KeepsCourse cs (store_call c s))

abbrev pub Settled : Status → Type 0
Settled abandoned = Unit
Settled reviewed = Unit
Settled _ = ⊥

Course-Settled : {a b : Status} → Course a b → Settled a → b ≡ a
Course-Settled here h = refl
Course-Settled (next activate p) h = absurd h
Course-Settled (next end_created p) h = absurd h
Course-Settled (next end_active p) h = absurd h
Course-Settled (next abandon_created p) h = absurd h
Course-Settled (next abandon_active p) h = absurd h
Course-Settled (next review p) h = absurd h

-- An abandoned session is abandoned and a reviewed one reviewed for ever after, whatever is called.
pub store_calls-Settled :
    (cs : List StoreCall) (s : MemoryStore) (id : String) (session : Session)
    → lookup id s.sessions ≡ some session
    → Settled session.status
    → (session' : Session) × (lookup id (store_calls cs s).sessions ≡ some session')
      × (session'.status ≡ session.status)
store_calls-Settled cs s id session e h =
    let (session', e', p) = store_calls-KeepsCourse cs s id session e in
    (session', e', Course-Settled p h)
