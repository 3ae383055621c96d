-- ===== src/Session/Store/Defs.antt =====
-- internal/session/memory_store.go and store.go: the state of the store and its errors.
use fluentwork_backend.Session.Types.{Session, Ticket, Utterance, Job, CostLog, RescueEvent}
use fluentwork_backend.Base.{String, Option, none, some, List, [], Dict, insert}

pub record MemoryStore : Type 0 where
  pub sessions : Dict Session
  pub tickets : Dict Ticket
  pub utterances : Dict (List Utterance)
  pub jobs : Dict Job
  pub cost_logs : Dict CostLog
  pub rescue_events : Dict (List RescueEvent)

-- `NewMemoryStore`
unfoldable pub empty_store : MemoryStore
empty_store = record {
  sessions = [];
  tickets = [];
  utterances = [];
  jobs = [];
  cost_logs = [];
  rescue_events = [];
}

-- The errors of store.go, and those that the inserting methods make by fmt.Errorf.
pub data StoreError : Type 0 where
  not_found ticket_used ticket_expired conflict : StoreError
  duplicate_session duplicate_ticket duplicate_job : StoreError

-- What a key that is missing reads as: a nil slice.
abbrev pub rows_of {ℓ} : {V : Type ℓ} → Option (List V) → List V
rows_of none = []
rows_of (some rows) = rows

-- `s.sessions[id] = session`
abbrev pub put_session : String → Session → MemoryStore → MemoryStore
put_session id session s = record s { sessions = insert id session s.sessions }
