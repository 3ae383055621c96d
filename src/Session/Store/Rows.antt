-- ===== src/Session/Store/Rows.antt =====
-- internal/session/memory_store.go: the methods on sessions and jobs leave the tickets alone, and those on sessions and
-- tickets the jobs.
use fluentwork_backend.Session.Types.{Session, Status, Ticket, Job, CostLog, Utterance, RescueEvent}
use fluentwork_backend.Session.Store.Defs.{MemoryStore}
use fluentwork_backend.Session.Store.Sessions.{
  create_session, create_ticket, create_session_with_ticket, consume_ticket, mark_session_active,
  end_session, mark_session_reviewed, mark_session_reviewed_with_cost, save_utterance_eval,
}
use fluentwork_backend.Session.Store.Jobs.{enqueue_job, claim_next_job, finish_job}
use fluentwork_backend.Base.{ℕ, String, ◌≡◌, Option, List, arith, ℤ}

pub create_session-tickets :
    (session : Session) (s : MemoryStore) → (create_session session s).1.tickets ≡ s.tickets
unfolding create_session
create_session-tickets session s = ground arith

pub mark_session_active-tickets :
    (id : String) (at : ℕ) (s : MemoryStore) → (mark_session_active id at s).1.tickets ≡ s.tickets
unfolding mark_session_active
mark_session_active-tickets id at s = ground arith

pub end_session-tickets :
    (id : String) (status : Status) (duration : ℤ) (utterances : List Utterance)
    (events : List RescueEvent) (at : ℕ) (log : Option CostLog) (s : MemoryStore)
    → (end_session id status duration utterances events at log s).1.tickets ≡ s.tickets
unfolding end_session
end_session-tickets id status duration utterances events at log s = ground arith

pub mark_session_reviewed-tickets :
    (id review_json : String) (at : ℕ) (s : MemoryStore)
    → (mark_session_reviewed id review_json at s).1.tickets ≡ s.tickets
unfolding mark_session_reviewed
mark_session_reviewed-tickets id review_json at s = ground arith

pub mark_session_reviewed_with_cost-tickets :
    (id review_json : String) (at : ℕ) (log : CostLog) (s : MemoryStore)
    → (mark_session_reviewed_with_cost id review_json at log s).1.tickets ≡ s.tickets
unfolding mark_session_reviewed_with_cost
mark_session_reviewed_with_cost-tickets id review_json at log s = ground arith

pub save_utterance_eval-tickets :
    (id eval_json : String) (s : MemoryStore)
    → (save_utterance_eval id eval_json s).1.tickets ≡ s.tickets
unfolding save_utterance_eval
save_utterance_eval-tickets id eval_json s = ground arith

pub enqueue_job-tickets : (job : Job) (s : MemoryStore) → (enqueue_job job s).1.tickets ≡ s.tickets
unfolding enqueue_job
enqueue_job-tickets job s = ground arith

pub claim_next_job-tickets :
    (worker_id : String) (at : ℕ) (s : MemoryStore)
    → (claim_next_job worker_id at s).1.tickets ≡ s.tickets
unfolding claim_next_job
claim_next_job-tickets worker_id at s = ground arith

pub finish_job-tickets :
    (id : String) (change : Job → Job) (s : MemoryStore)
    → (finish_job id change s).1.tickets ≡ s.tickets
finish_job-tickets id change s = ground arith

pub create_session-jobs :
    (session : Session) (s : MemoryStore) → (create_session session s).1.jobs ≡ s.jobs
unfolding create_session
create_session-jobs session s = ground arith

pub create_ticket-jobs :
    (ticket : Ticket) (s : MemoryStore) → (create_ticket ticket s).1.jobs ≡ s.jobs
unfolding create_ticket
create_ticket-jobs ticket s = ground arith

pub create_session_with_ticket-jobs :
    (session : Session) (ticket : Ticket) (s : MemoryStore)
    → (create_session_with_ticket session ticket s).1.jobs ≡ s.jobs
unfolding create_session_with_ticket
create_session_with_ticket-jobs session ticket s = ground arith

pub consume_ticket-jobs :
    (hash : String) (at : ℕ) (s : MemoryStore) → (consume_ticket hash at s).1.jobs ≡ s.jobs
unfolding consume_ticket
consume_ticket-jobs hash at s = ground arith

pub mark_session_active-jobs :
    (id : String) (at : ℕ) (s : MemoryStore) → (mark_session_active id at s).1.jobs ≡ s.jobs
unfolding mark_session_active
mark_session_active-jobs id at s = ground arith

pub end_session-jobs :
    (id : String) (status : Status) (duration : ℤ) (utterances : List Utterance)
    (events : List RescueEvent) (at : ℕ) (log : Option CostLog) (s : MemoryStore)
    → (end_session id status duration utterances events at log s).1.jobs ≡ s.jobs
unfolding end_session
end_session-jobs id status duration utterances events at log s = ground arith

pub mark_session_reviewed-jobs :
    (id review_json : String) (at : ℕ) (s : MemoryStore)
    → (mark_session_reviewed id review_json at s).1.jobs ≡ s.jobs
unfolding mark_session_reviewed
mark_session_reviewed-jobs id review_json at s = ground arith

pub mark_session_reviewed_with_cost-jobs :
    (id review_json : String) (at : ℕ) (log : CostLog) (s : MemoryStore)
    → (mark_session_reviewed_with_cost id review_json at log s).1.jobs ≡ s.jobs
unfolding mark_session_reviewed_with_cost
mark_session_reviewed_with_cost-jobs id review_json at log s = ground arith

pub save_utterance_eval-jobs :
    (id eval_json : String) (s : MemoryStore) → (save_utterance_eval id eval_json s).1.jobs ≡ s.jobs
unfolding save_utterance_eval
save_utterance_eval-jobs id eval_json s = ground arith
