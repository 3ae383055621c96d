-- ===== src/Examples/Account.antt =====
-- internal/account: the account service at concrete inputs.
use Prim.Native.Char.{code}
use Prim.Native.String.{◌++◌ as str_append}
use fluentwork_backend.Base.{
  ℕ, zero, suc, ◌+◌, ◌-◌, ◌*◌, String, ◌≡◌, refl, sym, ap, subst, true, false, Option, none, some,
  List, [], ◌∷◌, arith, str_eq, eq_iff, ◌==◌, if◌then◌else◌, pos, length, trim_space, rune_count,
  Dict, lookup, insert, HasKeysOnce, hour, add_time, Result, ok, err, rune_count,
}
use fluentwork_backend.Account.Types.{
  User, UserStatus, RefreshToken, TokenResponse, MergeResponse, AccountError, is_active,
}
use fluentwork_backend.Account.Store.{
  MemoryStore, new_memory_store, key_of, create_user, get_user, get_active_by_device_id,
  active_user, get_active_by_email, mark_merged, delete_refresh_tokens_for_user,
  delete_tombstones_for_user,
}
use fluentwork_backend.Account.Password.{
  Crypto, IsCrypto, HasNoDollar, hash_password, validate_password,
}
use fluentwork_backend.Account.Service.{
  Service, AccountState, normalize_device_id, issue_session, refresh, guest_of,
}
use fluentwork_backend.Account.Store.Consistent.{
  StoreCall, IsConsistent, AreKeyed, store_calls, store_calls-IsConsistent,
}
use fluentwork_backend.Account.Sessions.{OnlyTokenAt, refresh-rotates}
use fluentwork_backend.Account.SignIn.{
  normalize_email, register_user, register_email, login_email, registered_user,
}
use fluentwork_backend.Account.SignIn.Return.{login_email-register_email}
use fluentwork_backend.Account.Merge.{Reassigner, chain_reassign, merge_guest, merge}
use fluentwork_backend.Account.Merge.Rows.{Rows, reassigners, OwnsNothing}
use fluentwork_backend.Account.Merge.Moved.{IsMerged, merge-IsMerged}
use fluentwork_backend.Account.Privacy.{
  DataWiper, HardDeleter, PrivacyState, DeleteDataResult, wipe_all, cascade, with_wiped,
  after_wipers, delete_hard, restore_all, delete_all_data, undelete_user,
}
use fluentwork_backend.Account.Privacy.Undo.{CanRestore}
use fluentwork_backend.Account.Privacy.Wipers.{Modules, corpus_wiper, session_wiper}
use fluentwork_backend.Account.Privacy.Restored.{
  NothingLost, NothingLost-refl, delete_all_data-undone,
}
use fluentwork_backend.Topic.Store as TopicStore
use fluentwork_backend.Examples.Corpus.{two_learners}
use fluentwork_backend.Account.Privacy.Window.{
  IsDeleted, Answered, restored_user, undelete_user-delete_all_data, undelete_user-expired,
}
use fluentwork_backend.Corpus.Schedule.{default_schedule}

-- Ids "", "x", "xx", ... by the number of the call.
abbrev tally : ℕ → String
tally zero = ""
tally (suc n) = str_append "x" (tally n)

-- Bytes as strokes, each with a comma after.
abbrev strokes : ℕ → String → String
strokes zero text = String.◌∷◌ "," text
strokes (suc n) text = String.◌∷◌ "x" (strokes n text)

abbrev encode_bytes : List ℕ → String
encode_bytes [] = ""
encode_bytes (n ∷ bytes) = strokes n (encode_bytes bytes)

abbrev add_stroke : Option (List ℕ) → Option (List ℕ)
add_stroke none = none
add_stroke (some []) = none
add_stroke (some (n ∷ bytes)) = some (suc n ∷ bytes)

abbrev add_byte : Option (List ℕ) → Option (List ℕ)
add_byte none = none
add_byte (some bytes) = some (0 ∷ bytes)

abbrev decode_bytes : String → Option (List ℕ)
decode_bytes String.[] = some []
decode_bytes (String.◌∷◌ c text) =
    let rest = decode_bytes text in if code c == 0x2C then add_byte rest else add_stroke rest

abbrev copies : ℕ → ℕ → List ℕ
copies zero x = []
copies (suc n) x = x ∷ copies n x

-- A key of as many bytes as were asked for, each the length of the password.
abbrev crypto : Crypto
crypto = record {
  derive = λ password salt iterations n. some (copies n (rune_count password));
  encode = encode_bytes;
  decode = decode_bytes;
  atoi = λ text. if str_eq text "210000" then some 210_000 else none;
}

decode_bytes-strokes :
    (n : ℕ) (text : String) (bytes : List ℕ)
    → decode_bytes text ≡ some bytes
    → decode_bytes (strokes n text) ≡ some (n ∷ bytes)
decode_bytes-strokes zero text bytes h = rw h refl
decode_bytes-strokes (suc n) text bytes h = rw (decode_bytes-strokes n text bytes h) refl

decode_bytes-encode_bytes : (bytes : List ℕ) → decode_bytes (encode_bytes bytes) ≡ some bytes
decode_bytes-encode_bytes [] = refl
decode_bytes-encode_bytes (n ∷ bytes) =
    decode_bytes-strokes n (encode_bytes bytes) bytes (decode_bytes-encode_bytes bytes)

strokes-HasNoDollar : (n : ℕ) (text : String) → HasNoDollar text → HasNoDollar (strokes n text)
strokes-HasNoDollar zero text h = h
strokes-HasNoDollar (suc n) text h = strokes-HasNoDollar n text h

encode_bytes-HasNoDollar : (bytes : List ℕ) → HasNoDollar (encode_bytes bytes)
encode_bytes-HasNoDollar [] = refl
encode_bytes-HasNoDollar (n ∷ bytes) =
    strokes-HasNoDollar n (encode_bytes bytes) (encode_bytes-HasNoDollar bytes)

crypto-IsCrypto : IsCrypto crypto
crypto-IsCrypto = record {
  decode-encode = decode_bytes-encode_bytes;
  encode-HasNoDollar = encode_bytes-HasNoDollar;
  atoi_iterations = refl;
}

crypto-sized :
    (salt key : List ℕ) → crypto.derive "long enough" salt 210_000 32 ≡ some key → length key ≡ 32
crypto-sized salt key h =
    let same : copies 32 11 ≡ key = cc h in subst (λ (bytes : List ℕ). length bytes ≡ 32) same refl

abbrev service : Service
service = record {
  access_token_ttl = pos 60;
  refresh_token_ttl = pos 600;
  new_id = tally;
  random_token = λ n. some (str_append "r" (tally n));
  random_salt = λ n. some (copies 16 n);
  hash_token = λ raw. raw;
  sign = λ claims. some "jwt";
  parse_claims = λ now token. none;
  to_lower = λ text. text;
  parse_address = some;
  crypto = crypto;
}

-- A registered user with a device, and a guest that holds another.
abbrev anna : User
anna = registered_user "anna" "a@b" "hash" 10

abbrev guest : User
guest = guest_of "gus" "phone-1" 20

abbrev visit : List StoreCall
visit =
    StoreCall.creates anna
    ∷ StoreCall.creates guest
    ∷ StoreCall.marks_merged "gus" "anna" "phone-1" 30
    ∷ StoreCall.marks_deleted "anna" 40 40
    ∷ []

store_calls-IsConsistent_example : IsConsistent (store_calls visit new_memory_store)
store_calls-IsConsistent_example = store_calls-IsConsistent visit

-- The store with both users and a token for each.
abbrev both : MemoryStore
both = record new_memory_store {
  users = ("anna", anna) ∷ ("gus", guest) ∷ [];
  by_device = ("phone-1", "gus") ∷ [];
  by_email = ("a@b", "anna") ∷ [];
  tokens =
      ("r0", record { id = "t"; user_id = "anna"; hash = "r0"; expires_at = 500; created_at = 10 })
      ∷ [];
}

both-AreKeyed : AreKeyed both.users
unfolding lookup
both-AreKeyed key user h = ground (arith, eq_iff "anna" key, eq_iff "gus" key)

abbrev start : AccountState
start = record { store = both; ids = 0; draws = 1 }

abbrev renewed : Result AccountError TokenResponse × AccountState
renewed = refresh service " r0" 100 start

abbrev renewed_answer : TokenResponse
renewed_answer = record {
  user_id = "anna";
  is_guest = false;
  status = UserStatus.active;
  access_token = "jwt";
  refresh_token = "rx";
  token_type = "Bearer";
}

refresh-rotates_example :
    (refresh service " r0" 200 renewed.1
      ≡ (err (AccountError.unauthenticated "invalid refresh token"), renewed.1))
    × OnlyTokenAt "anna" "rx" renewed.1.store
    × ((stored : RefreshToken) × (lookup "rx" renewed.1.store.tokens ≡ some stored)
        × (stored.user_id ≡ "anna")
        × (stored.expires_at ≡ add_time 100 (pos 600)))
unfolding trim_space
refresh-rotates_example =
    refresh-rotates service " r0" 100 200 start renewed.1 renewed_answer
      (unfold HasKeysOnce lookup in (refl, tt)) both-AreKeyed
      (unfold refresh trim_space issue_session lookup is_active in refl) refl

-- The merge of the guest, who holds a ticket, into anna's account.
abbrev rows : Rows
rows = (
  record {
    sessions = [];
    tickets =
        (
          "h",
          record {
            id = "k";
            session_id = "s";
            user_id = "gus";
            hash = "h";
            expires_at = 90;
            used_at = none;
            created_at = 20;
          },
        )
        ∷ [];
    utterances = [];
    jobs = [];
    cost_logs = [];
    rescue_events = [];
  },
  record {
    schedule = default_schedule;
    blocks = [];
    uses = [];
    feedback = [];
    real_uses = [];
    edits = [];
  },
)

abbrev chain : Reassigner Rows
chain = record { reassign_from_guest = chain_reassign (reassigners 50) }

abbrev united : Result AccountError MergeResponse × (AccountState × Rows)
united = merge chain "anna" "phone-1" 50 start rows

merge-IsMerged_example :
    (held : User) × (device : String) × (normalize_device_id "phone-1" ≡ ok device)
    × (get_active_by_device_id device start.store ≡ some held)
    × (held.is_guest ≡ true)
    × IsMerged held.id "anna" device united.1.0.store
    × OwnsNothing held.id united.1.1
merge-IsMerged_example =
    merge-IsMerged "anna" "phone-1" 50 start united.1.0 rows united.1.1 united.0 both-AreKeyed refl
      (unfold merge normalize_device_id trim_space get_active_by_device_id active_user lookup
          is_active merge_guest chain_reassign mark_merged delete_refresh_tokens_for_user in
        refl)

-- Registering and signing in.
abbrev newcomer : AccountState
newcomer = record { store = new_memory_store; ids = 1; draws = 2 }

abbrev registered : Result AccountError TokenResponse × AccountState
registered = register_email service "c@d" "long enough" 70 newcomer

abbrev registered_answer : TokenResponse
registered_answer = record {
  user_id = "x";
  is_guest = false;
  status = UserStatus.active;
  access_token = "jwt";
  refresh_token = "rxxx";
  token_type = "Bearer";
}

login_email-register_email_example :
    (user : User) × (user.id ≡ "x")
    × (login_email service " c@d" "long enough" 80 registered.1
        ≡ issue_session service user 80 registered.1)
login_email-register_email_example =
    login_email-register_email service crypto-IsCrypto "c@d" " c@d" "c@d" "long enough" 70 80
      newcomer registered.1 registered_answer crypto-sized
      (unfold normalize_email trim_space in refl) (unfold normalize_email trim_space in refl)
      (unfold register_email normalize_email trim_space validate_password get_active_by_email
          active_user lookup hash_password register_user create_user key_of issue_session in
        refl)

-- Rows that are a number: a wipe adds one, a restore takes it back.
abbrev shelf : DataWiper ℕ
shelf = record {
  entity_type = "shelf";
  wipe = λ user_id now b. (ok 1, suc b);
  restore = λ user_id b. (ok 1, b - 1);
}

-- The wiper of the daily topics, over its in-memory store.
abbrev topic_wiper : DataWiper (Modules TopicStore.MemoryStore)
topic_wiper = record {
  entity_type = "daily_topic_cards";
  wipe = λ user_id at rows.
      let (n, s) = TopicStore.soft_delete_all_for_user user_id at rows.others in
      (ok n, record rows { others = s });
  restore = λ user_id rows.
      let (n, s) = TopicStore.restore_deleted_for_user user_id rows.others in
      (ok n, record rows { others = s });
}

topic_wiper-CanRestore : CanRestore (Modules TopicStore.MemoryStore) NothingLost topic_wiper
topic_wiper-CanRestore = record {
  restore-wipe =
      λ user_id now n b after later e lost. subst (NothingLost later) (sym (ap (λ a. a.1) e)) lost;
  wipe-failed = λ user_id now message b after e. absurd (cc e);
}

abbrev broken : HardDeleter (Modules TopicStore.MemoryStore)
broken = record { entity_type = "drill_records"; delete = λ user_id b. (err "down", b) }

abbrev ready : PrivacyState
ready = record { users = both; ids = 0; exports = [] }

abbrev full : Modules TopicStore.MemoryStore
full = record {
  corpus = two_learners;
  sessions = rows.0;
  others = record { cards = []; checkins = []; streaks = [] };
}

abbrev failed :
    Result AccountError DeleteDataResult × (PrivacyState × Modules TopicStore.MemoryStore)
failed =
    delete_all_data tally (some corpus_wiper ∷ some session_wiper ∷ some topic_wiper ∷ none ∷ [])
      (some broken ∷ []) "anna" "DELETE-MY-DATA" 90 ready full

delete_all_data-undone_example : (failed.1.0 ≡ ready) × NothingLost failed.1.1 full
delete_all_data-undone_example =
    delete_all_data-undone tally (some topic_wiper ∷ none ∷ []) (some broken) "anna"
      "DELETE-MY-DATA" 90 ready full (topic_wiper-CanRestore, tt)
      (λ message b after e. subst (λ c. NothingLost c b) (ap (λ a. a.1) e) (NothingLost-refl b))
      (AccountError.business_error "down") failed.1.0 failed.1.1
      (unfold delete_all_data trim_space lookup cascade wipe_all after_wipers delete_hard
          with_wiped in
        refl)

abbrev shelves : List (Option (DataWiper ℕ))
shelves = some shelf ∷ []

abbrev gone : Result AccountError DeleteDataResult × (PrivacyState × ℕ)
gone = delete_all_data tally shelves [] "anna" "DELETE-MY-DATA" 90 ready 7

undelete_user-expired_example :
    undelete_user tally shelves "anna" "" "" (91 + 720 * hour) gone.1.0 gone.1.1
    ≡ (err (AccountError.failed_precondition "undelete window has expired"), gone.1)
unfolding trim_space lookup cascade
undelete_user-expired_example =
    undelete_user-expired tally "anna" "DELETE-MY-DATA" "" "" anna 90 (91 + 720 * hour) ready
      shelves [] 7 8 (("shelf", 1) ∷ []) (shelf ∷ []) refl refl refl refl
      (unfold wipe_all after_wipers delete_hard with_wiped insert in refl) (omega arith)

-- An undoing on the last day.
abbrev undone : Result AccountError (Dict ℕ) × (PrivacyState × ℕ)
undone = undelete_user tally shelves "anna" "" "" (90 + 720 * hour) gone.1.0 gone.1.1

undelete_user-delete_all_data_example :
    Answered gone.0
    × IsDeleted "anna" anna 90 gone.1.0
    × Answered undone.0
    × (get_user "anna" undone.1.0.users ≡ some (restored_user anna 90))
    × ((delete_tombstones_for_user "anna" undone.1.0.users).0 ≡ 0)
    × (undone.1.1 ≡ 7)
unfolding trim_space lookup cascade
undelete_user-delete_all_data_example =
    undelete_user-delete_all_data tally "anna" "DELETE-MY-DATA" "" "" anna 90 (90 + 720 * hour)
      ready shelves [] 7 8 7 (("shelf", 1) ∷ []) (("shelf", 1) ∷ []) (shelf ∷ []) refl refl refl
      refl (unfold wipe_all after_wipers delete_hard with_wiped insert in refl)
      (unfold restore_all insert in refl) (omega arith)
