-- ===== src/Session/Types.antt =====
-- internal/session/types.go and internal/aicost/types.go: the rows of the session store. A status
-- or a job type is one of the program's constants or another text. A float64 and JSON bytes are
-- stored and copied only, so they stand by their bits and by a text.
use fluentwork_backend.Base.{ℕ, ◌*◌, String, Bool, true, false, Option, str_eq, ℤ, minute}

pub data Status : Type 0 where
  created active ended abandoned reviewed : Status
  other : String → Status

-- `isTerminalStatus`
unfoldable pub is_terminal_status : Status → Bool
is_terminal_status ended = true
is_terminal_status abandoned = true
is_terminal_status _ = false

pub data JobStatus : Type 0 where
  pending processing done failed : JobStatus
  other : String → JobStatus

pub data JobType : Type 0 where
  session_finished session_eval : JobType
  other : String → JobType

-- `==` on job types
unfoldable pub job_type_eq : JobType → JobType → Bool
job_type_eq session_finished session_finished = true
job_type_eq session_eval session_eval = true
job_type_eq (JobType.other s) (JobType.other t) = str_eq s t
job_type_eq _ _ = false

-- `==` on job statuses
unfoldable pub job_status_eq : JobStatus → JobStatus → Bool
job_status_eq pending pending = true
job_status_eq processing processing = true
job_status_eq done done = true
job_status_eq failed failed = true
job_status_eq (JobStatus.other s) (JobStatus.other t) = str_eq s t
job_status_eq _ _ = false

abbrev pub max_job_attempts : ℕ
max_job_attempts = 2

abbrev pub default_job_lease : ℕ
default_job_lease = 2 * minute

pub record Session : Type 0 where
  pub id : String
  pub user_id : String
  pub material_id : Option String
  pub scene_type : String
  pub session_length : String
  pub status : Status
  pub duration_sec : ℤ
  pub review_json : String
  pub created_at : ℕ
  pub updated_at : ℕ
  pub deleted_at : Option ℕ

pub record Job : Type 0 where
  pub id : String
  pub session_id : String
  pub job_type : JobType
  pub status : JobStatus
  pub attempts : ℕ
  pub available_at : ℕ
  pub locked_at : Option ℕ
  pub locked_by : Option String
  pub last_error : Option String
  pub created_at : ℕ
  pub updated_at : ℕ

pub record Ticket : Type 0 where
  pub id : String
  pub session_id : String
  pub user_id : String
  pub hash : String
  pub expires_at : ℕ
  pub used_at : Option ℕ
  pub created_at : ℕ

pub record Utterance : Type 0 where
  pub id : String
  pub session_id : String
  pub seq : ℤ
  pub speaker : String
  pub text : String
  pub asr_confidence : Option ℕ
  pub audio_url : Option String
  pub llm_eval_json : Option String
  pub created_at : ℕ
  pub interrupted : Bool

pub record RescueEvent : Type 0 where
  pub id : String
  pub session_id : String
  pub user_id : String
  pub seq : ℤ
  pub turn_id : String
  pub level : ℤ
  pub path : String
  pub ladder : String
  pub user_opened : Bool
  pub anchor : String
  pub created_at : ℕ

-- aicost.Log
pub record CostLog : Type 0 where
  pub id : String
  pub user_id : Option String
  pub user_id_anonymized : Option String
  pub task_type : String
  pub model : String
  pub tokens_in : ℤ
  pub tokens_out : ℤ
  pub audio_sec : ℤ
  pub chars : ℤ
  pub cost_micro_yuan : ℤ
  pub created_at : ℕ
