-- ===== src/Session/Service/Types.antt =====
-- internal/session/types.go and service.go: requests, answers and what the service is built from.
use fluentwork_backend.Session.Types.{Status}
use fluentwork_backend.Session.Store.{MemoryStore, StoreError}
use fluentwork_backend.Base.{ℕ, String, Bool, Option, List, ℤ}

-- An apierr value with its message, or an error of the store or of the source of randomness that is
-- passed on.
pub data ServiceError : Type 0 where
  unauthenticated invalid_argument api_not_found api_conflict : String → ServiceError
  store_error : StoreError → ServiceError
  no_ticket : ServiceError

-- What the service is built from: the configuration, uuid.NewString by the number of the call, the
-- hash of a ticket, the material source (`none` for an error) if one is attached, and
-- whether an eval processor is.
pub record Service : Type 0 where
  pub session_ticket_ttl : ℤ
  pub voice_gateway_wss_url : String
  pub mini_session_turn_limit : ℤ
  pub new_id : ℕ → String
  pub hash_ticket : String → String
  pub materials : Option (String → String → Option String)
  pub eval : Bool

-- The store, and how many ids have been made.
pub record ServiceState : Type 0 where
  pub store : MemoryStore
  pub ids : ℕ

pub record CreateRequest : Type 0 where
  pub material_id : Option String
  pub scene_type : String
  pub session_length : String

-- `TicketExpiresIn`, a float computation on the configuration, is left out.
pub record CreateResponse : Type 0 where
  pub session_id : String
  pub wss_url : String
  pub ticket : String
  pub ticket_expires_at : ℕ
  pub scene_type : String
  pub status : Status

pub record ActivateResponse : Type 0 where
  pub session_id : String
  pub status : Status
  pub material_context : String
  pub turn_limit : ℤ

pub record ContinuationUtterance : Type 0 where
  pub seq : ℤ
  pub speaker : String
  pub text : String

pub record VoiceUsageItem : Type 0 where
  pub uplink_ms : ℤ
  pub downlink_ms : ℤ
  pub model : String

pub record RescueEventItem : Type 0 where
  pub seq : ℤ
  pub turn_id : String
  pub level : ℤ
  pub path : String
  pub ladder : String
  pub user_opened : Bool
  pub anchor : String

pub record EndUtteranceItem : Type 0 where
  pub seq : ℤ
  pub speaker : String
  pub text : String
  pub interrupted : Bool

pub record EndRequest : Type 0 where
  pub session_id : String
  pub duration_sec : ℤ
  pub reason : String
  pub utterances : List EndUtteranceItem
  pub rescue_events : List RescueEventItem
  pub voice_usage : Option VoiceUsageItem

pub record EndResponse : Type 0 where
  pub session_id : String
  pub status : Status
  pub duration_sec : ℤ
  pub utterance_count : ℕ
  pub already_ended : Bool
  pub review_skipped : Bool
