-- ===== src/Account/Types.antt =====
-- internal/account/types.go, store.go and the interfaces of service.go and privacy_service.go: the rows of
-- an account, requests and answers.
use fluentwork_backend.Base.{ℕ, ◌*◌, String, Bool, true, false, Option, hour}

-- The constants of a user's status, or another text.
pub data UserStatus : Type 0 where
  active merged deleted : UserStatus
  other : String → UserStatus

unfoldable pub is_active : UserStatus → Bool
is_active active = true
is_active _ = false

unfoldable pub is_merged : UserStatus → Bool
is_merged merged = true
is_merged _ = false

-- `ConfirmationDeleteMyData`
abbrev pub confirmation_delete_my_data : String
confirmation_delete_my_data = "DELETE-MY-DATA"

-- `UndeleteWindow`
abbrev pub undelete_window : ℕ
undelete_window = 720 * hour

-- `ExportReadyDelay`
abbrev pub export_ready_delay : ℕ
export_ready_delay = 24 * hour

pub record User : Type 0 where
  pub id : String
  pub email : Option String
  pub phone : Option String
  pub device_id : Option String
  pub is_guest : Bool
  pub password_hash : Option String
  pub status : UserStatus
  pub merged_into_user_id : Option String
  pub deleted_at : Option ℕ
  pub tombstone_at : Option ℕ
  pub created_at : ℕ
  pub updated_at : ℕ

pub record RefreshToken : Type 0 where
  pub id : String
  pub user_id : String
  pub hash : String
  pub expires_at : ℕ
  pub created_at : ℕ

pub record Tombstone : Type 0 where
  pub id : String
  pub user_id : String
  pub entity_type : String
  pub entity_id : String
  pub deleted_at : ℕ
  pub purge_at : ℕ
  pub created_at : ℕ

pub record AuditLog : Type 0 where
  pub id : String
  pub actor : String
  pub action : String
  pub user_id : String
  pub reason : String
  pub created_at : ℕ

pub record ExportJob : Type 0 where
  pub id : String
  pub user_id : String
  pub email_to : String
  pub estimated_ready_at : ℕ
  pub created_at : ℕ

pub record TokenResponse : Type 0 where
  pub user_id : String
  pub is_guest : Bool
  pub status : UserStatus
  pub access_token : String
  pub refresh_token : String
  pub token_type : String

pub record MergeResponse : Type 0 where
  pub user_id : String
  pub is_guest : Bool
  pub merged_from_user_id : Option String
  pub already_merged : Bool

-- The errors of the store: `ErrNotFound`, `ErrDuplicateDeviceID`, `ErrDuplicateEmail`, and the one that
-- CreateUser makes by fmt.Errorf.
pub data StoreError : Type 0 where
  not_found duplicate_device_id duplicate_email duplicate_user_id : StoreError

-- An apierr value with its message, or an error that is passed on: of the store, of signing, of the
-- source of randomness, or of another module.
pub data AccountError : Type 0 where
  unauthenticated invalid_argument permission_denied api_not_found : String → AccountError
  api_conflict failed_precondition internal : String → AccountError
  store_error : StoreError → AccountError
  not_signed no_random : AccountError
  business_error : String → AccountError
