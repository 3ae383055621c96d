-- ===== src/Account/SignIn.antt =====
-- internal/account/service_auth.go: registering and signing in by email. `now` is the clock's reading.
pub mod Return
use fluentwork_backend.Base.{
  ℕ, ◌+◌, String, false, Option, none, some, str_eq, if◌then◌else◌, trim_space, Result, err,
}
use fluentwork_backend.Account.Types.{User, UserStatus, TokenResponse, StoreError, AccountError}
use fluentwork_backend.Account.Store.{create_user, get_active_by_email}
use fluentwork_backend.Account.Password.{
  PasswordCheck, validate_password, hash_password, verify_password,
}
use fluentwork_backend.Account.Service.{Service, AccountState, issue_session}

-- `normalizeEmail`; `none` is `ErrInvalidEmail`.
unfoldable pub normalize_email : Service → String → Option String
normalize_email service email =
    let trimmed = service.to_lower (trim_space email) in
    if str_eq trimmed "" then none else elim (service.parse_address trimmed) [
      | none ↦ none
      | some address ↦ if str_eq address trimmed then some trimmed else none
    ]

-- The user of `RegisterEmail`
abbrev pub registered_user : String → String → String → ℕ → User
registered_user id email hash now = record {
  id = id;
  email = some email;
  phone = none;
  device_id = none;
  is_guest = false;
  password_hash = some hash;
  status = UserStatus.active;
  merged_into_user_id = none;
  deleted_at = none;
  tombstone_at = none;
  created_at = now;
  updated_at = now;
}

abbrev registered_already : AccountError
registered_already = AccountError.api_conflict "这个邮箱已经注册过了"

-- The error of `RegisterEmail` for one of `CreateUser`
unfoldable pub register_failure : StoreError → AccountError
register_failure StoreError.duplicate_email = registered_already
register_failure e = AccountError.store_error e

-- `hashPassword` with the salt that the next draw gives
abbrev drawn_hash : Service → String → AccountState → Option String
drawn_hash service password s = elim (service.random_salt s.draws) [
  | none ↦ none
  | some salt ↦ hash_password service.crypto salt password
]

-- `RegisterEmail` from `CreateUser` on
unfoldable pub register_user :
    Service → User → ℕ → AccountState → Result AccountError TokenResponse × AccountState
unfolding register_failure
register_user service user now s =
    let (failure, store) = create_user user s.store in
    let after = record s { store = store } in
    elim failure [
      | none ↦ issue_session service user now after
      | some e ↦ (err (register_failure e), after)
    ]

-- `RegisterEmail`
unfoldable pub register_email :
    Service → String → String → ℕ → AccountState → Result AccountError TokenResponse × AccountState
unfolding normalize_email register_user
register_email service email password now s = elim (normalize_email service email) [
  | none ↦ (err (AccountError.invalid_argument "邮箱格式不对"), s)
  | some normalized ↦ elim (validate_password password) [
    | some message ↦ (err (AccountError.invalid_argument message), s)
    | none ↦ elim (get_active_by_email normalized s.store) [
      | some user ↦ (err registered_already, s)
      | none ↦
          let drawn = record s { draws = s.draws + 1 } in
          elim (drawn_hash service password s) [
            | none ↦ (err (AccountError.internal "密码没能存下来"), drawn)
            | some hash ↦
                register_user service (registered_user (service.new_id s.ids) normalized hash now)
                  now (record drawn { ids = s.ids + 1 })
          ]
    ]
  ]
]

-- `errCredentialRejected`
abbrev pub credential_rejected : AccountError
credential_rejected = AccountError.unauthenticated "邮箱或密码不对"

-- What `LoginEmail` does with the check of the password.
unfoldable pub after_check :
    Service
    → User
    → PasswordCheck
    → ℕ
    → AccountState
    → Result AccountError TokenResponse × AccountState
after_check service user PasswordCheck.matches now s = issue_session service user now s
after_check service user PasswordCheck.invalid_hash now s =
    (err (AccountError.internal "登录服务暂时不可用"), s)
after_check service user _ now s = (err credential_rejected, s)

-- `LoginEmail`. For an unknown email a salt is drawn all the same.
unfoldable pub login_email :
    Service → String → String → ℕ → AccountState → Result AccountError TokenResponse × AccountState
unfolding normalize_email after_check
login_email service email password now s = elim (normalize_email service email) [
  | none ↦ (err credential_rejected, s)
  | some normalized ↦ elim (get_active_by_email normalized s.store) [
    | none ↦ (err credential_rejected, record s { draws = s.draws + 1 })
    | some user ↦ if user.is_guest then (err credential_rejected, s) else elim user.password_hash [
      | none ↦ (err credential_rejected, s)
      | some hash ↦ after_check service user (verify_password service.crypto hash password) now s
    ]
  ]
]
