-- ===== src/Account/Privacy.antt =====
-- internal/account/privacy_service.go: the deletion of an account's data, its undoing, and the export job. `now` is
-- the clock's reading. The business rows are a type of their own, on which each module's wiper works.
pub mod Undo
pub mod Window
pub mod Wipers
pub mod Restored
use fluentwork_backend.Base.{
  ℕ, ◌+◌, String, Bool, true, false, not, ◌&&◌, Option, none, some, List, [], ◌∷◌, str_eq, ltb,
  ◌==◌, if◌then◌else◌, is_some, trim_space, Dict, insert, Result, ok, err,
}
use fluentwork_backend.Account.Types.{
  User, Tombstone, AuditLog, ExportJob, AccountError, StoreError, confirmation_delete_my_data,
  undelete_window, export_ready_delay,
}
use fluentwork_backend.Account.Store.{
  MemoryStore, get_user, mark_deleted, clear_deleted, delete_refresh_tokens_for_user,
  insert_tombstone, delete_tombstones_for_user, insert_audit,
}

-- `DataWiper`; an error is a text.
pub record DataWiper (B : Type 0) : Type 0 where
  pub entity_type : String
  pub wipe : String → ℕ → B → Result String ℕ × B
  pub restore : String → B → Result String ℕ × B

-- `HardDeleter`
pub record HardDeleter (B : Type 0) : Type 0 where
  pub entity_type : String
  pub delete : String → B → Result String ℕ × B

-- `DeleteDataResult`; the time is not formatted.
pub record DeleteDataResult : Type 0 where
  pub cascaded : Dict ℕ
  pub backup_purge_at : ℕ
  pub already_deleted : Bool

-- The account store, and how many ids have been made.
pub record PrivacyState : Type 0 where
  pub users : MemoryStore
  pub ids : ℕ
  pub exports : Dict ExportJob

module _ {B : Type 0} where
  -- `restoreWipers`: those that have wiped, from the last. Errors are logged.
  unfoldable pub restore_wipers : String → List (DataWiper B) → B → B
  restore_wipers user_id [] b = b
  restore_wipers user_id (wiper ∷ wiped) b =
      restore_wipers user_id wiped (wiper.restore user_id b).1

  -- The loop over the wipers: nil ones are skipped, the first error stops it. `wiped` stands from the last.
  unfoldable pub wipe_all :
      String
      → ℕ
      → List (Option (DataWiper B))
      → Dict ℕ
      → List (DataWiper B)
      → B
      → Result String (Dict ℕ × List (DataWiper B)) × B
  unfolding restore_wipers
  wipe_all user_id now [] cascaded wiped b = (ok (cascaded, wiped), b)
  wipe_all user_id now (none ∷ wipers) cascaded wiped b =
      wipe_all user_id now wipers cascaded wiped b
  wipe_all user_id now (some wiper ∷ wipers) cascaded wiped b =
      let (count, after) = wiper.wipe user_id now b in
      elim count [
        | err e ↦ (err e, restore_wipers user_id wiped after)
        | ok n ↦
            wipe_all user_id now wipers (insert wiper.entity_type n cascaded) (wiper ∷ wiped) after
      ]

  -- The loop over the hard deleters.
  unfoldable pub delete_hard :
      String
      → List (Option (HardDeleter B))
      → Dict ℕ
      → List (DataWiper B)
      → B
      → Result String (Dict ℕ) × B
  delete_hard user_id [] cascaded wiped b = (ok cascaded, b)
  delete_hard user_id (none ∷ hard) cascaded wiped b = delete_hard user_id hard cascaded wiped b
  delete_hard user_id (some deleter ∷ hard) cascaded wiped b =
      let (count, after) = deleter.delete user_id b in
      elim count [
        | err e ↦ (err e, restore_wipers user_id wiped after)
        | ok n ↦ delete_hard user_id hard (insert deleter.entity_type n cascaded) wiped after
      ]

  unfoldable pub with_wiped :
      List (DataWiper B)
      → Result String (Dict ℕ) × B
      → Result String (Dict ℕ × List (DataWiper B)) × B
  with_wiped wiped (err e, rows) = (err e, rows)
  with_wiped wiped (ok all, rows) = (ok (all, wiped), rows)

  -- The hard deleters, after what the wipers answered.
  unfoldable pub after_wipers :
      String
      → List (Option (HardDeleter B))
      → Result String (Dict ℕ × List (DataWiper B)) × B
      → Result String (Dict ℕ × List (DataWiper B)) × B
  unfolding with_wiped delete_hard
  after_wipers user_id hard (err e, rows) = (err e, rows)
  after_wipers user_id hard (ok (cascaded, wiped), rows) =
      with_wiped wiped (delete_hard user_id hard cascaded wiped rows)

  -- The cascade over the business rows: the wipers, then the hard deleters.
  unfoldable pub cascade :
      String
      → ℕ
      → List (Option (DataWiper B))
      → List (Option (HardDeleter B))
      → B
      → Result String (Dict ℕ × List (DataWiper B)) × B
  unfolding wipe_all after_wipers
  cascade user_id now wipers hard b =
      after_wipers user_id hard (wipe_all user_id now wipers [] [] b)

-- The loop over the cascade that enters the tombstones, in the order in which it meets the entities.
unfoldable pub enter_tombstones : (ℕ → String) → String → ℕ → Dict ℕ → PrivacyState → PrivacyState
enter_tombstones new_id user_id now [] s = s
enter_tombstones new_id user_id now ((entity, n) ∷ cascaded) s =
    let row : Tombstone = record {
      id = new_id s.ids;
      user_id = user_id;
      entity_type = entity;
      entity_id = user_id;
      deleted_at = now;
      purge_at = now + undelete_window;
      created_at = now;
    } in
    let kept = record s { users = insert_tombstone row s.users; ids = s.ids + 1 } in
    if n == 0 && not (str_eq entity "users")
    then enter_tombstones new_id user_id now cascaded s
    else enter_tombstones new_id user_id now cascaded kept

-- What is answered for a user that is deleted already.
abbrev deleted_already : User → ℕ → DeleteDataResult
deleted_already user now = record {
  cascaded = [];
  backup_purge_at = elim user.tombstone_at [
    | none ↦ now + undelete_window
    | some at ↦ at + undelete_window
  ];
  already_deleted = true;
}

-- `DeleteAllData` after the cascade.
unfoldable pub after_cascade :
    {B : Type 0}
    → (ℕ → String)
    → String
    → ℕ
    → PrivacyState
    → Result String (Dict ℕ × List (DataWiper B)) × B
    → Result AccountError DeleteDataResult × (PrivacyState × B)
unfolding enter_tombstones restore_wipers
after_cascade new_id user_id now s (err e, rows) = (err (AccountError.business_error e), (s, rows))
after_cascade new_id user_id now s (ok (counts, wiped), rows) =
    let (failure, marked) = mark_deleted user_id now now s.users in
    let cascaded = insert "users" 1 counts in
    let signed_out = record s { users = delete_refresh_tokens_for_user user_id marked } in
    elim failure [
      | some e ↦ (err (AccountError.store_error e), (s, restore_wipers user_id wiped rows))
      | none ↦ (
        ok (record {
          cascaded = cascaded;
          backup_purge_at = now + undelete_window;
          already_deleted = false;
        }),
        (enter_tombstones new_id user_id now cascaded signed_out, rows),
      )
    ]

-- `DeleteAllData` on a user that is not deleted yet.
unfoldable pub delete_user :
    {B : Type 0}
    → (ℕ → String)
    → List (Option (DataWiper B))
    → List (Option (HardDeleter B))
    → String
    → ℕ
    → PrivacyState
    → B
    → Result AccountError DeleteDataResult × (PrivacyState × B)
unfolding cascade after_cascade
delete_user new_id wipers hard user_id now s b =
    after_cascade new_id user_id now s (cascade user_id now wipers hard b)

-- `DeleteAllData`
unfoldable pub delete_all_data :
    {B : Type 0}
    → (ℕ → String)
    → List (Option (DataWiper B))
    → List (Option (HardDeleter B))
    → String
    → String
    → ℕ
    → PrivacyState
    → B
    → Result AccountError DeleteDataResult × (PrivacyState × B)
unfolding delete_user
delete_all_data new_id wipers hard raw_id confirmation_code now s b =
    let user_id = trim_space raw_id in
    if str_eq user_id ""
    then (err (AccountError.unauthenticated "missing authenticated user"), (s, b))
    else if not (str_eq (trim_space confirmation_code) confirmation_delete_my_data)
    then (err (AccountError.failed_precondition "confirmation_code must be DELETE-MY-DATA"), (s, b))
    else elim (get_user user_id s.users) [
      | none ↦ (err (AccountError.api_not_found "user not found"), (s, b))
      | some user ↦
          if is_some user.deleted_at
          then (ok (deleted_already user now), (s, b))
          else delete_user new_id wipers hard user_id now s b
    ]

-- The loop of `UndeleteUser` over the wipers; the first error stops it.
unfoldable pub restore_all :
    {B : Type 0} → String → List (Option (DataWiper B)) → Dict ℕ → B → Result String (Dict ℕ) × B
restore_all user_id [] restored b = (ok restored, b)
restore_all user_id (none ∷ wipers) restored b = restore_all user_id wipers restored b
restore_all user_id (some wiper ∷ wipers) restored b =
    let (count, after) = wiper.restore user_id b in
    elim count [
      | err e ↦ (err e, after)
      | ok n ↦ restore_all user_id wipers (insert wiper.entity_type n restored) after
    ]

-- The account rows of `UndeleteUser` once the business rows are restored: the user, the tombstones, the audit
-- log. The store fails only where the user is missing.
unfoldable pub undelete_rows :
    (ℕ → String) → String → String → String → ℕ → PrivacyState → Option StoreError × PrivacyState
undelete_rows new_id user_id actor reason now s =
    let (failure, cleared) = clear_deleted user_id s.users in
    let trimmed = trim_space actor in
    let row : AuditLog = record {
      id = new_id s.ids;
      actor = if str_eq trimmed "" then "support" else trimmed;
      action = "undelete-user";
      user_id = user_id;
      reason = trim_space reason;
      created_at = now;
    } in
    elim failure [
      | some e ↦ (some e, record s { users = cleared })
      | none ↦ (
        none,
        record s {
          users = insert_audit row (delete_tombstones_for_user user_id cleared).1;
          ids = s.ids + 1;
        },
      )
    ]

-- The last time at which a deleted user can be restored.
abbrev pub undelete_limit : User → ℕ → ℕ
undelete_limit user deleted_at =
    elim user.tombstone_at [ none ↦ deleted_at | some at ↦ at ] + undelete_window

-- `UndeleteUser`, with the counts that it answers
unfoldable pub undelete_user :
    {B : Type 0}
    → (ℕ → String)
    → List (Option (DataWiper B))
    → String
    → String
    → String
    → ℕ
    → PrivacyState
    → B
    → Result AccountError (Dict ℕ) × (PrivacyState × B)
unfolding restore_all undelete_rows
undelete_user new_id wipers raw_id actor reason now s b =
    let user_id = trim_space raw_id in
    if str_eq user_id ""
    then (err (AccountError.invalid_argument "user_id is required"), (s, b))
    else elim (get_user user_id s.users) [
      | none ↦ (err (AccountError.api_not_found "user not found"), (s, b))
      | some user ↦ elim user.deleted_at [
        | none ↦ (err (AccountError.failed_precondition "account is not deleted"), (s, b))
        | some deleted_at ↦
            if ltb (undelete_limit user deleted_at) now
            then (err (AccountError.failed_precondition "undelete window has expired"), (s, b))
            else (let (outcome, rows) = restore_all user_id wipers [] b in
                let (failure, after) = undelete_rows new_id user_id actor reason now s in
                elim outcome [
                  | err e ↦ (err (AccountError.business_error e), (s, rows))
                  | ok restored ↦ elim failure [
                    | some e ↦ (err (AccountError.store_error e), (after, rows))
                    | none ↦ (ok (insert "users" 1 restored), (after, rows))
                  ]
                ])
      ]
    ]

-- `EnqueueExport`, with the job that it makes. An email that is empty stands for the user's own.
unfoldable pub enqueue_export :
    (ℕ → String) → String → String → ℕ → PrivacyState → Result AccountError ExportJob × PrivacyState
enqueue_export new_id raw_id email_to now s =
    let user_id = trim_space raw_id in
    let asked = trim_space email_to in
    if str_eq user_id ""
    then (err (AccountError.unauthenticated "missing authenticated user"), s)
    else elim (get_user user_id s.users) [
      | none ↦ (err (AccountError.api_not_found "user not found"), s)
      | some user ↦
          let own : String = elim user.email [ none ↦ asked | some email ↦ trim_space email ] in
          let job : ExportJob = record {
            id = new_id s.ids;
            user_id = user_id;
            email_to = if str_eq asked "" then own else asked;
            estimated_ready_at = now + export_ready_delay;
            created_at = now;
          } in
          if is_some user.deleted_at
          then (err (AccountError.failed_precondition "account is deleted"), s)
          else (ok job, record s { exports = insert job.id job s.exports; ids = s.ids + 1 })
    ]
