-- ===== src/Account/Service.antt =====
-- internal/account/service.go, service_auth.go and token.go: issuing, checking and renewing tokens. `now` is the clock's reading during a call.
use Prim.Native.Char.{Char, code}
use fluentwork_backend.Base.{
  ℕ, ◌+◌, String, Bool, true, ◌&&◌, ◌||◌, Option, none, some, List, str_eq, ltb, leb, ◌==◌,
  if◌then◌else◌, ℤ, trim_space, rune_count, add_time, Result, ok, err, rune_count,
}
use fluentwork_backend.Account.Types.{
  User, UserStatus, RefreshToken, TokenResponse, AccountError, is_active,
}
use fluentwork_backend.Account.Store.{
  MemoryStore, create_user, get_user, get_active_by_device_id, replace_refresh_token,
  get_refresh_token,
}
use fluentwork_backend.Account.Password.{Crypto}

-- `accessClaims`
pub record AccessClaims : Type 0 where
  pub is_guest : Bool
  pub subject : String
  pub id : String
  pub issued_at : ℕ
  pub expires_at : ℕ

-- What the service is built from: the configuration, uuid.NewString by the number of the call, the
-- tokens that crypto/rand makes by the number of the draw (`none` for an error), SHA-256, the JWT
-- library, strings.ToLower, mail.ParseAddress (the address it finds) and what Password needs.
pub record Service : Type 0 where
  pub access_token_ttl : ℤ
  pub refresh_token_ttl : ℤ
  pub new_id : ℕ → String
  pub random_token : ℕ → Option String
  pub random_salt : ℕ → Option (List ℕ)
  pub hash_token : String → String
  pub sign : AccessClaims → Option String
  pub parse_claims : ℕ → String → Option AccessClaims
  pub to_lower : String → String
  pub parse_address : String → Option String
  pub crypto : Crypto

-- The store, how many ids have been made, and how many draws of randomness.
pub record AccountState : Type 0 where
  pub store : MemoryStore
  pub ids : ℕ
  pub draws : ℕ

-- The token that `issueSession` stores.
abbrev pub refresh_of : Service → User → ℕ → String → AccountState → RefreshToken
refresh_of service user now raw s = record {
  id = service.new_id (s.ids + 1);
  user_id = user.id;
  hash = service.hash_token raw;
  expires_at = add_time now service.refresh_token_ttl;
  created_at = now;
}

-- The claims that `issueSession` signs.
abbrev pub claims_of : Service → User → ℕ → AccountState → AccessClaims
claims_of service user now s = record {
  is_guest = user.is_guest;
  subject = user.id;
  id = service.new_id s.ids;
  issued_at = now;
  expires_at = add_time now service.access_token_ttl;
}

-- `issueSession`. `ExpiresIn`, a float computation on the configuration, is left out.
unfoldable pub issue_session :
    Service → User → ℕ → AccountState → Result AccountError TokenResponse × AccountState
issue_session service user now s = elim (service.sign (claims_of service user now s)) [
  | none ↦ (err AccountError.not_signed, record s { ids = s.ids + 1 })
  | some access ↦ elim (service.random_token s.draws) [
    | none ↦ (err AccountError.no_random, record s { ids = s.ids + 1; draws = s.draws + 1 })
    | some raw ↦ (
      ok (record {
        user_id = user.id;
        is_guest = user.is_guest;
        status = user.status;
        access_token = access;
        refresh_token = raw;
        token_type = "Bearer";
      }),
      record {
        store = replace_refresh_token (refresh_of service user now raw s) s.store;
        ids = s.ids + 2;
        draws = s.draws + 1;
      },
    )
  ]
]

-- `^[A-Za-z0-9._:-]$` of `deviceIDPattern`
abbrev is_device_char : Char → Bool
is_device_char c =
    let n = code c in
    leb 0x41 n && leb n 0x5A
    || leb 0x61 n && leb n 0x7A
    || leb 0x30 n && leb n 0x39
    || n == 0x2E
    || n == 0x5F
    || n == 0x3A
    || n == 0x2D

abbrev are_device_chars : String → Bool
are_device_chars String.[] = true
are_device_chars (String.◌∷◌ c s) = is_device_char c && are_device_chars s

-- `normalizeDeviceID`
unfoldable pub normalize_device_id : String → Result AccountError String
normalize_device_id raw =
    let id = trim_space raw in
    if str_eq id ""
    then err (AccountError.invalid_argument "device_id is required")
    else if are_device_chars id && leb (rune_count id) 128
    then ok id
    else err (AccountError.invalid_argument "device_id is invalid")

-- The user of `createGuest`
abbrev pub guest_of : String → String → ℕ → User
guest_of id device_id now = record {
  id = id;
  email = none;
  phone = none;
  device_id = some device_id;
  is_guest = true;
  password_hash = none;
  status = UserStatus.active;
  merged_into_user_id = none;
  deleted_at = none;
  tombstone_at = none;
  created_at = now;
  updated_at = now;
}

-- `createGuest` and what `IssueGuest` does when it fails: the device is looked up again.
unfoldable pub create_guest :
    Service → String → ℕ → AccountState → Result AccountError User × AccountState
create_guest service device_id now s =
    let user = guest_of (service.new_id s.ids) device_id now in
    let (failure, store) = create_user user s.store in
    let after = record s { store = store; ids = s.ids + 1 } in
    elim failure [
      | none ↦ (ok user, after)
      | some e ↦ elim (get_active_by_device_id device_id store) [
        | none ↦ (err (AccountError.store_error e), after)
        | some existing ↦ (ok existing, after)
      ]
    ]

-- `IssueGuest`
unfoldable pub issue_guest :
    Service → String → ℕ → AccountState → Result AccountError TokenResponse × AccountState
unfolding create_guest issue_session normalize_device_id
issue_guest service device_id now s = elim (normalize_device_id device_id) [
  | err e ↦ (err e, s)
  | ok normalized ↦ elim (get_active_by_device_id normalized s.store) [
    | some user ↦ issue_session service user now s
    | none ↦
        let (created, after) = create_guest service normalized now s in
        elim created [ err e ↦ (err e, after) | ok user ↦ issue_session service user now after ]
  ]
]

-- A user that `Authenticate` and `Refresh` found, if it is active.
abbrev if_active : Option User → String → Result AccountError User
if_active none message = err (AccountError.unauthenticated message)
if_active (some user) message =
    if is_active user.status
    then ok user
    else err (AccountError.unauthenticated "account is not active")

-- `parseAccessToken` and `Authenticate`
unfoldable pub authenticate : Service → String → ℕ → AccountState → Result AccountError User
authenticate service access_token now s = elim (service.parse_claims now access_token) [
  | none ↦ err (AccountError.unauthenticated "invalid access token")
  | some claims ↦
      if str_eq claims.subject ""
      then err (AccountError.unauthenticated "invalid access token")
      else if_active (get_user claims.subject s.store) "invalid access token"
]

-- `Refresh`
unfoldable pub refresh :
    Service → String → ℕ → AccountState → Result AccountError TokenResponse × AccountState
unfolding issue_session
refresh service refresh_token now s =
    let raw = trim_space refresh_token in
    if str_eq raw ""
    then (err (AccountError.invalid_argument "refresh_token is required"), s)
    else elim (get_refresh_token (service.hash_token raw) s.store) [
      | none ↦ (err (AccountError.unauthenticated "invalid refresh token"), s)
      | some stored ↦
          if ltb now stored.expires_at
          then elim (if_active (get_user stored.user_id s.store) "invalid refresh token") [
            | err e ↦ (err e, s)
            | ok user ↦ issue_session service user now s
          ]
          else (err (AccountError.unauthenticated "refresh token expired"), s)
    ]
