-- ===== src/Session/Store/Calls.antt =====
-- internal/session/memory_store.go: any sequence of the calls that change the store.
use fluentwork_backend.Session.Types.{
  Session, Status, ended, abandoned, Ticket, Utterance, RescueEvent, CostLog, Job,
}
use fluentwork_backend.Session.Store.Defs.{MemoryStore}
use fluentwork_backend.Session.Store.Sessions.{
  create_session, create_ticket, create_session_with_ticket, consume_ticket, mark_session_active,
  end_session, mark_session_reviewed, mark_session_reviewed_with_cost, save_utterance_eval,
}
use fluentwork_backend.Session.Store.Jobs.{enqueue_job, claim_next_job, complete_job, fail_job}
use fluentwork_backend.Session.Store.Users.{
  reassign_user, soft_delete_for_user, restore_deleted_for_user,
}
use fluentwork_backend.Base.{ℕ, String, Bool, true, false, Option, List, [], ◌∷◌, ℤ}

-- A call that changes the store. A session is ended with one of the two statuses that
-- store.go's `EndSession` allows: abandoned, or ended.
pub data StoreCall : Type 0 where
  creates : Session → StoreCall
  issues : Ticket → StoreCall
  opens : Session → Ticket → StoreCall
  consumes : String → ℕ → StoreCall
  activates : String → ℕ → StoreCall
  ends : String → Bool → ℤ → List Utterance → List RescueEvent → ℕ → Option CostLog → StoreCall
  reviews : String → String → ℕ → StoreCall
  reviews_with_cost : String → String → ℕ → CostLog → StoreCall
  evaluates : String → String → StoreCall
  enqueues : Job → StoreCall
  claims : String → ℕ → StoreCall
  completes : String → ℕ → StoreCall
  fails : String → ℕ → String → ℤ → StoreCall
  reassigns : String → String → ℕ → StoreCall
  soft_deletes : String → ℕ → StoreCall
  restores : String → StoreCall

abbrev pub terminal : Bool → Status
terminal true = abandoned
terminal false = ended

unfoldable pub store_call : StoreCall → MemoryStore → MemoryStore
store_call (creates session) s = (create_session session s).1
store_call (issues ticket) s = (create_ticket ticket s).1
store_call (opens session ticket) s = (create_session_with_ticket session ticket s).1
store_call (consumes hash at) s = (consume_ticket hash at s).1
store_call (activates id at) s = (mark_session_active id at s).1
store_call (ends id abandon duration utterances events at log) s =
    (end_session id (terminal abandon) duration utterances events at log s).1
store_call (reviews id review_json at) s = (mark_session_reviewed id review_json at s).1
store_call (reviews_with_cost id review_json at log) s =
    (mark_session_reviewed_with_cost id review_json at log s).1
store_call (evaluates utterance_id eval_json) s = (save_utterance_eval utterance_id eval_json s).1
store_call (enqueues job) s = (enqueue_job job s).1
store_call (claims worker_id at) s = (claim_next_job worker_id at s).1
store_call (completes job_id at) s = (complete_job job_id at s).1
store_call (fails job_id at err_msg delay) s = (fail_job job_id at err_msg delay s).1
store_call (reassigns from_user_id to_user_id now) s = reassign_user from_user_id to_user_id now s
store_call (soft_deletes user_id at) s = (soft_delete_for_user user_id at s).1
store_call (restores user_id) s = (restore_deleted_for_user user_id s).1

unfoldable pub store_calls : List StoreCall → MemoryStore → MemoryStore
store_calls [] s = s
store_calls (c ∷ cs) s = store_calls cs (store_call c s)
