-- ===== src/Account/Store.antt =====
-- internal/account/memory_store.go: the in-memory store of users and refresh tokens. A method gives its
-- result and the store after it.
use fluentwork_backend.Base.{
  ℕ, String, Bool, false, not, ◌&&◌, Option, none, some, List, [], ◌∷◌, ◌++◌, str_eq, ltb,
  if◌then◌else◌, is_some, length, keep_if, Dict, lookup, insert, values, remove, remove_where,
}
pub mod Consistent
use fluentwork_backend.Account.Types.{
  User, UserStatus, RefreshToken, Tombstone, AuditLog, StoreError, is_active, is_merged,
}

-- `MemoryStore`
pub record MemoryStore : Type 0 where
  pub users : Dict User
  pub by_device : Dict String
  pub by_email : Dict String
  pub tokens : Dict RefreshToken
  pub tombstones : List Tombstone
  pub audits : List AuditLog

-- `NewMemoryStore`
abbrev pub new_memory_store : MemoryStore
new_memory_store = record {
  users = [];
  by_device = [];
  by_email = [];
  tokens = [];
  tombstones = [];
  audits = [];
}

-- The key of a pointer to a text: that of nil and of "" is not entered.
unfoldable pub key_of : Option String → Option String
key_of none = none
key_of (some key) = if str_eq key "" then none else some key

-- Whether a key is taken.
abbrev is_taken : Option String → Dict String → Bool
is_taken none index = false
is_taken (some key) index = is_some (lookup key index)

abbrev enter : Option String → String → Dict String → Dict String
enter none id index = index
enter (some key) id index = insert key id index

-- `CreateUser`. The device is entered before the email is looked up.
unfoldable pub create_user : User → MemoryStore → Option StoreError × MemoryStore
unfolding key_of
create_user user s =
    let device = key_of user.device_id in
    let email = key_of user.email in
    let bound = record s { by_device = enter device user.id s.by_device } in
    if is_some (lookup user.id s.users)
    then (some StoreError.duplicate_user_id, s)
    else if is_taken device s.by_device
    then (some StoreError.duplicate_device_id, s)
    else if is_taken email s.by_email
    then (some StoreError.duplicate_email, bound)
    else (
      none,
      record bound {
        by_email = enter email user.id s.by_email;
        users = insert user.id user s.users;
      },
    )

-- `GetUser`
abbrev pub get_user : String → MemoryStore → Option User
get_user id s = lookup id s.users

-- The active user with an id, if the index had one.
unfoldable pub active_user : MemoryStore → Option String → Option User
active_user s none = none
active_user s (some id) = elim (lookup id s.users) [
  | none ↦ none
  | some user ↦ if is_active user.status then some user else none
]

-- `GetActiveByEmail`
unfoldable pub get_active_by_email : String → MemoryStore → Option User
unfolding active_user
get_active_by_email email s = active_user s (lookup email s.by_email)

-- `GetActiveByDeviceID`
unfoldable pub get_active_by_device_id : String → MemoryStore → Option User
unfolding active_user
get_active_by_device_id device_id s = active_user s (lookup device_id s.by_device)

abbrev remove_key : Option String → Dict String → Dict String
remove_key none index = index
remove_key (some key) index = remove key index

abbrev remove_other : Option String → String → Dict String → Dict String
remove_other none device_id index = index
remove_other (some key) device_id index = if str_eq key device_id then index else remove key index

-- The writes of `MarkMerged`, on a guest and a target that have passed its guards.
unfoldable pub merge_rows : User → User → String → String → String → ℕ → MemoryStore → MemoryStore
merge_rows guest target guest_id target_id device_id at s = record s {
  users =
      insert target_id (record target { device_id = some device_id; updated_at = at })
        (insert guest_id
          (record guest {
            device_id = none;
            status = UserStatus.merged;
            merged_into_user_id = some target_id;
            updated_at = at;
          })
          s.users);
  by_device =
      insert device_id target_id
        (remove_other target.device_id device_id (remove_key guest.device_id s.by_device));
}

-- `MarkMerged`
unfoldable pub mark_merged :
    String → String → String → ℕ → MemoryStore → Option StoreError × MemoryStore
unfolding merge_rows
mark_merged guest_id target_id device_id at s = elim (lookup guest_id s.users) [
  | none ↦ (some StoreError.not_found, s)
  | some guest ↦
      if guest.is_guest && is_active guest.status
      then elim (lookup target_id s.users) [
        | none ↦ (some StoreError.not_found, s)
        | some target ↦
            if is_active target.status
            then (none, merge_rows guest target guest_id target_id device_id at s)
            else (some StoreError.not_found, s)
      ]
      else (some StoreError.not_found, s)
]

abbrev is_merged_into : String → User → Bool
is_merged_into target_id user = elim user.merged_into_user_id [
  | none ↦ false
  | some id ↦ str_eq id target_id && is_merged user.status
]

-- The later of the one found and a user, the one found where neither is later.
abbrev later_user : Option User → User → Option User
later_user none user = some user
later_user (some found) user =
    if ltb found.updated_at user.updated_at then some user else some found

unfoldable pub find_merged : String → Option User → List User → Option User
find_merged target_id found [] = found
find_merged target_id found (user ∷ users) =
    find_merged target_id (if is_merged_into target_id user then later_user found user else found)
      users

-- `FindGuestMergedInto`, with the users in the order in which the loop meets them.
unfoldable pub find_guest_merged_into : String → MemoryStore → Option User
unfolding find_merged
find_guest_merged_into target_id s = find_merged target_id none (values s.users)

abbrev pub is_token_of : String → RefreshToken → Bool
is_token_of user_id token = str_eq token.user_id user_id

-- `DeleteRefreshTokensForUser`
unfoldable pub delete_refresh_tokens_for_user : String → MemoryStore → MemoryStore
delete_refresh_tokens_for_user user_id s = record s {
  tokens = remove_where (is_token_of user_id) s.tokens;
}

-- `ReplaceRefreshToken`
unfoldable pub replace_refresh_token : RefreshToken → MemoryStore → MemoryStore
replace_refresh_token token s = record s {
  tokens = insert token.hash token (remove_where (is_token_of token.user_id) s.tokens);
}

-- `GetRefreshToken`
abbrev pub get_refresh_token : String → MemoryStore → Option RefreshToken
get_refresh_token hash s = lookup hash s.tokens

-- `MarkDeleted`
unfoldable pub mark_deleted : String → ℕ → ℕ → MemoryStore → Option StoreError × MemoryStore
mark_deleted user_id at tombstone_at s = elim (lookup user_id s.users) [
  | none ↦ (some StoreError.not_found, s)
  | some user ↦ if is_some user.deleted_at then (none, s) else (
    none,
    record s {
      users =
          insert user_id
            (record user {
              status = UserStatus.deleted;
              deleted_at = some at;
              tombstone_at = some tombstone_at;
              updated_at = at;
            })
            s.users;
    },
  )
]

-- `ClearDeleted`
unfoldable pub clear_deleted : String → MemoryStore → Option StoreError × MemoryStore
clear_deleted user_id s = elim (lookup user_id s.users) [
  | none ↦ (some StoreError.not_found, s)
  | some user ↦ (
    none,
    record s {
      users =
          insert user_id
            (record user { status = UserStatus.active; deleted_at = none; tombstone_at = none })
            s.users;
    },
  )
]

-- `InsertTombstone`
abbrev pub insert_tombstone : Tombstone → MemoryStore → MemoryStore
insert_tombstone row s = record s { tombstones = s.tombstones ++ row ∷ [] }

-- `DeleteTombstonesForUser`
unfoldable pub delete_tombstones_for_user : String → MemoryStore → ℕ × MemoryStore
delete_tombstones_for_user user_id s = (
  length (keep_if (λ row. str_eq row.user_id user_id) s.tombstones),
  record s { tombstones = keep_if (λ row. not (str_eq row.user_id user_id)) s.tombstones },
)

-- `InsertAudit`
abbrev pub insert_audit : AuditLog → MemoryStore → MemoryStore
insert_audit row s = record s { audits = s.audits ++ row ∷ [] }
