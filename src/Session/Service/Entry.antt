-- ===== src/Session/Service/Entry.antt =====
-- internal/session/service.go: how a session is created, entered and activated.
use fluentwork_backend.Session.Types.{Session, created, Ticket}
use fluentwork_backend.Session.Store.{
  StoreError, not_found, ticket_used, ticket_expired, conflict, create_session_with_ticket,
  consume_ticket, mark_session_active,
}
use fluentwork_backend.Session.Service.Types.{
  ServiceError, unauthenticated, invalid_argument, api_not_found, api_conflict, store_error,
  no_ticket, Service, ServiceState, CreateRequest, CreateResponse, ActivateResponse,
}
use fluentwork_backend.Session.Service.Transcript.{cap_runes}
use Prim.Native.Char.{code}
use fluentwork_backend.Base.{
  ℕ, ◌+◌, String, Bool, not, ◌&&◌, ◌||◌, Option, none, some, str_eq, leb, ◌==◌, if◌then◌else◌, ℤ,
  pos, leb_ℤ, trim_space, rune_count, all_chars, add_time, Result, ok, err, rune_count, all_chars,
}

abbrev pub is_alphanumeric : ℕ → Bool
is_alphanumeric n = leb 48 n && leb n 57 || leb 65 n && leb n 90 || leb 97 n && leb n 122

-- `materialIDPattern.MatchString`
unfoldable pub is_material_id : String → Bool
is_material_id id =
    leb 1 (rune_count id)
    && leb (rune_count id) 36
    && all_chars (λ c. is_alphanumeric (code c) || code c == 45) id

-- `sceneTypePattern.MatchString`
unfoldable pub is_scene_type : String → Bool
is_scene_type scene =
    leb 1 (rune_count scene)
    && leb (rune_count scene) 64
    && all_chars (λ c. is_alphanumeric (code c) || code c == 45 || code c == 46 || code c == 95)
        scene

-- `normalizeOptionalMaterialID`
unfoldable pub normalize_optional_material_id : Option String → Result ServiceError (Option String)
unfolding is_material_id
normalize_optional_material_id none = ok none
normalize_optional_material_id (some raw) =
    let id = trim_space raw in
    if str_eq id ""
    then ok none
    else if is_material_id id
    then ok (some id)
    else err (invalid_argument "material_id is invalid")

-- `normalizeSceneType`
unfoldable pub normalize_scene_type : String → Result ServiceError String
unfolding is_scene_type
normalize_scene_type raw =
    let scene = trim_space raw in
    if str_eq scene ""
    then ok "demo"
    else if is_scene_type scene
    then ok scene
    else err (invalid_argument "scene_type is invalid")

-- `normalizeSessionLength`
unfoldable pub normalize_session_length : String → Result ServiceError String
normalize_session_length raw =
    let length = trim_space raw in
    if str_eq length ""
    then ok "standard"
    else if str_eq length "standard" || str_eq length "mini"
    then ok length
    else err (invalid_argument "session_length must be standard or mini")

-- The session that `Create` inserts.
abbrev pub new_session : String → String → Option String → String → String → ℕ → Session
new_session id user_id material_id scene_type session_length now = record {
  id = id;
  user_id = user_id;
  material_id = material_id;
  scene_type = scene_type;
  session_length = session_length;
  status = created;
  duration_sec = pos 0;
  review_json = "";
  created_at = now;
  updated_at = now;
  deleted_at = none;
}

-- The ticket that `Create` inserts.
abbrev pub new_ticket : String → String → String → String → ℕ → ℕ → Ticket
new_ticket id session_id user_id hash expires_at now = record {
  id = id;
  session_id = session_id;
  user_id = user_id;
  hash = hash;
  expires_at = expires_at;
  used_at = none;
  created_at = now;
}

-- `Create` from the session on: `raw` is the result of `randomTicket`, `none` where rand.Read fails.
unfoldable pub create_session_for :
    Service
    → String
    → Option String
    → String
    → String
    → ℕ
    → Option String
    → ServiceState
    → Result ServiceError CreateResponse × ServiceState
create_session_for env user_id material_id scene_type session_length now none st =
    (err no_ticket, st)
create_session_for env user_id material_id scene_type session_length now (some raw) st =
    let session =
      new_session (env.new_id st.ids) user_id material_id scene_type session_length now in
    let expires_at = add_time now env.session_ticket_ttl in
    let ticket =
      new_ticket (env.new_id (st.ids + 1)) session.id user_id (env.hash_ticket raw) expires_at
        now in
    let (r, store) = create_session_with_ticket session ticket st.store in
    elim r [
      | err e ↦ (err (store_error e), record { store = store; ids = st.ids + 2 })
      | ok _ ↦ (
        ok (record {
          session_id = session.id;
          wss_url = env.voice_gateway_wss_url;
          ticket = raw;
          ticket_expires_at = expires_at;
          scene_type = scene_type;
          status = created;
        }),
        record { store = store; ids = st.ids + 2 },
      )
    ]

-- `Create`. The starter corpus, whose result is only logged, is left out.
unfoldable pub create :
    Service
    → String
    → CreateRequest
    → ℕ
    → Option String
    → ServiceState
    → Result ServiceError CreateResponse × ServiceState
unfolding create_session_for
create env user_id req now raw st =
    if str_eq (trim_space user_id) ""
    then (err (unauthenticated "missing authenticated user"), st)
    else elim (normalize_optional_material_id req.material_id) [
      | err e ↦ (err e, st)
      | ok material_id ↦ elim (normalize_scene_type req.scene_type) [
        | err e ↦ (err e, st)
        | ok scene_type ↦ elim (normalize_session_length req.session_length) [
          | err e ↦ (err e, st)
          | ok session_length ↦
              create_session_for env user_id material_id scene_type session_length now raw st
        ]
      ]
    ]

-- The errors of `ConsumeTicket`.
unfoldable pub ticket_failure : StoreError → ServiceError
ticket_failure not_found = unauthenticated "invalid ticket"
ticket_failure ticket_used = unauthenticated "ticket already used"
ticket_failure ticket_expired = unauthenticated "ticket expired"
ticket_failure e = store_error e

-- `Service.ConsumeTicket`
unfoldable pub redeem_ticket :
    Service → String → ℕ → ServiceState → Result ServiceError Ticket × ServiceState
unfolding ticket_failure
redeem_ticket env raw_ticket now st =
    let raw = trim_space raw_ticket in
    let (r, store) = consume_ticket (env.hash_ticket raw) now st.store in
    if str_eq raw "" then (err (unauthenticated "ticket is required"), st) else elim r [
      | err e ↦ (err (ticket_failure e), record st { store = store })
      | ok ticket ↦ (ok ticket, record st { store = store })
    ]

-- `turnLimit`
unfoldable pub turn_limit : Service → Session → ℤ
turn_limit env session =
    if not (str_eq session.session_length "mini")
    then pos 0
    else if leb_ℤ env.mini_session_turn_limit (pos 0)
    then pos 5
    else env.mini_session_turn_limit

abbrev pub material_id_of : Option String → String
material_id_of none = ""
material_id_of (some id) = trim_space id

-- `materialContext`
unfoldable pub material_context : Service → Session → String
material_context env session =
    let material_id = material_id_of session.material_id in
    elim env.materials [
      | none ↦ ""
      | some material_text ↦
          if str_eq material_id "" then "" else elim (material_text session.user_id material_id) [
            | none ↦ ""
            | some text ↦ cap_runes (trim_space text) 2000
          ]
    ]

-- The errors of `Activate`.
unfoldable pub activation_failure : StoreError → ServiceError
activation_failure not_found = api_not_found "session not found"
activation_failure conflict = api_conflict "session cannot be activated"
activation_failure e = store_error e

-- `Activate`
unfoldable pub activate_session :
    Service → String → ℕ → ServiceState → Result ServiceError ActivateResponse × ServiceState
unfolding activation_failure
activate_session env raw_id now st =
    let session_id = trim_space raw_id in
    let (r, store) = mark_session_active session_id now st.store in
    if str_eq session_id "" then (err (invalid_argument "session_id is required"), st) else elim r [
      | err e ↦ (err (activation_failure e), record st { store = store })
      | ok session ↦ (
        ok (record {
          session_id = session.id;
          status = session.status;
          material_context = material_context env session;
          turn_limit = turn_limit env session;
        }),
        record st { store = store },
      )
    ]
