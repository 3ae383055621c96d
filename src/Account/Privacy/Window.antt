-- ===== src/Account/Privacy/Window.antt =====
-- internal/account/privacy_service.go: what a deletion leaves of a user, and the window for undoing it.
use fluentwork_backend.Base.{
  ℕ, ◌+◌, ◌≤◌, ◌<◌, String, ◌≡◌, refl, ap, inl, inr, Bool, true, false, not, ◌&&◌, Option, none,
  some, List, [], ◌∷◌, arith, str_eq, ltb, ◌==◌, Bool-cases, length, keep_if, trim_space, Dict,
  lookup, insert, lookup-insert_self, Result, ok, err, lookup-remove_where,
}
use fluentwork_backend.Account.Types.{
  User, UserStatus, RefreshToken, AccountError, confirmation_delete_my_data, undelete_window,
}
use fluentwork_backend.Account.Store.{
  MemoryStore, get_user, mark_deleted, clear_deleted, delete_refresh_tokens_for_user,
  delete_tombstones_for_user, is_token_of,
}
use fluentwork_backend.Account.Privacy.{
  DataWiper, HardDeleter, PrivacyState, DeleteDataResult, cascade, enter_tombstones, after_cascade,
  delete_user, delete_all_data, restore_all, undelete_rows, undelete_user,
}

-- A user as a deletion leaves it.
abbrev deleted_user : User → ℕ → User
deleted_user user now = record user {
  status = UserStatus.deleted;
  deleted_at = some now;
  tombstone_at = some now;
  updated_at = now;
}

mark_deleted_lem :
    (user_id : String) (now : ℕ) (s : MemoryStore) (user : User)
    → get_user user_id s ≡ some user
    → user.deleted_at ≡ none
    → mark_deleted user_id now now s
      ≡ (none, record s { users = insert user_id (deleted_user user now) s.users })
unfolding mark_deleted
mark_deleted_lem user_id now s user found kept = rw (mark_deleted, found, kept) refl

-- The tombstones change neither the users nor the tokens.
enter_tombstones-users :
    (new_id : ℕ → String) (user_id : String) (now : ℕ) (cascaded : Dict ℕ) (s : PrivacyState)
    → (enter_tombstones new_id user_id now cascaded s).users.users ≡ s.users.users
unfolding enter_tombstones
enter_tombstones-users new_id user_id now [] s = refl
enter_tombstones-users new_id user_id now ((entity, n) ∷ cascaded) s =
    elim (Bool-cases (n == 0 && not (str_eq entity "users"))) [
      | inl e ↦ rw e (enter_tombstones-users new_id user_id now cascaded s)
      | inr e ↦ rw e (enter_tombstones-users new_id user_id now cascaded _)
    ]

enter_tombstones-tokens :
    (new_id : ℕ → String) (user_id : String) (now : ℕ) (cascaded : Dict ℕ) (s : PrivacyState)
    → (enter_tombstones new_id user_id now cascaded s).users.tokens ≡ s.users.tokens
unfolding enter_tombstones
enter_tombstones-tokens new_id user_id now [] s = refl
enter_tombstones-tokens new_id user_id now ((entity, n) ∷ cascaded) s =
    elim (Bool-cases (n == 0 && not (str_eq entity "users"))) [
      | inl e ↦ rw e (enter_tombstones-tokens new_id user_id now cascaded s)
      | inr e ↦ rw e (enter_tombstones-tokens new_id user_id now cascaded _)
    ]

-- What a deletion leaves of a user: the row as deleted, and no token.
abbrev pub IsDeleted : String → User → ℕ → PrivacyState → Type 0
IsDeleted user_id user now s =
    (get_user user_id s.users ≡ some (deleted_user user now))
    × ((hash : String) (token : RefreshToken)
        → lookup hash s.users.tokens ≡ some token
        → is_token_of user_id token ≡ false)

module _ (new_id : ℕ → String) (user_id : String) (user : User) (now : ℕ) (s : PrivacyState) where
  -- The account rows after the deletion, with the counts of its cascade.
  abbrev deleted_rows : Dict ℕ → PrivacyState
  deleted_rows counts = enter_tombstones new_id user_id now (insert "users" 1 counts) (record s {
    users =
        delete_refresh_tokens_for_user user_id
          (record s.users { users = insert user_id (deleted_user user now) s.users.users });
  })

  abbrev deletion_answer : Dict ℕ → DeleteDataResult
  deletion_answer counts = record {
    cascaded = insert "users" 1 counts;
    backup_purge_at = now + undelete_window;
    already_deleted = false;
  }

  deleted_rows-IsDeleted : (counts : Dict ℕ) → IsDeleted user_id user now (deleted_rows counts)
  unfolding delete_refresh_tokens_for_user
  deleted_rows-IsDeleted counts = (
    rw
        (enter_tombstones-users new_id user_id now (insert "users" 1 counts) (record s {
          users =
              delete_refresh_tokens_for_user user_id
                (record s.users { users = insert user_id (deleted_user user now) s.users.users });
        }))
        (lookup-insert_self user_id (deleted_user user now) s.users.users),
    λ hash token h. lookup-remove_where (is_token_of user_id) hash token s.users.tokens (
        rw
          (enter_tombstones-tokens new_id user_id now (insert "users" 1 counts) (record s {
            users =
                delete_refresh_tokens_for_user user_id
                  (record s.users { users = insert user_id (deleted_user user now) s.users.users });
          }))
          at h),
  )

  after_cascade_lem :
      {B : Type 0} (counts : Dict ℕ) (wiped : List (DataWiper B)) (rows : B)
      → get_user user_id s.users ≡ some user
      → user.deleted_at ≡ none
      → after_cascade new_id user_id now s (ok (counts, wiped), rows)
        ≡ (ok (deletion_answer counts), (deleted_rows counts, rows))
  unfolding after_cascade
  after_cascade_lem counts wiped rows found kept =
      let marked = mark_deleted_lem user_id now s.users user found kept in
      rw (after_cascade, ap (λ a. a.0) marked, ap (λ a. a.1) marked) refl

delete_all_data_lem :
    {B : Type 0} (new_id : ℕ → String) (raw_id code : String) (user : User) (now : ℕ)
    (s : PrivacyState) (wipers : List (Option (DataWiper B))) (hard : List (Option (HardDeleter B)))
    (b rows : B) (counts : Dict ℕ) (wiped : List (DataWiper B))
    → str_eq (trim_space raw_id) "" ≡ false
    → str_eq (trim_space code) confirmation_delete_my_data ≡ true
    → get_user (trim_space raw_id) s.users ≡ some user
    → user.deleted_at ≡ none
    → cascade (trim_space raw_id) now wipers hard b ≡ (ok (counts, wiped), rows)
    → delete_all_data new_id wipers hard raw_id code now s b ≡ (
      ok (deletion_answer new_id (trim_space raw_id) user now s counts),
      (deleted_rows new_id (trim_space raw_id) user now s counts, rows),
    )
unfolding delete_all_data delete_user
delete_all_data_lem new_id raw_id code user now s wipers hard b rows counts wiped named confirmed
      found kept done =
    rw (named, confirmed, found, kept, done)
      (after_cascade_lem new_id (trim_space raw_id) user now s counts wiped rows found kept)

-- What an undoing in time gives back: the user as it was, active, with the time of the deletion as its last change.
abbrev pub restored_user : User → ℕ → User
restored_user user now = record user {
  status = UserStatus.active;
  deleted_at = none;
  tombstone_at = none;
  updated_at = now;
}

clear_deleted_lem :
    (user_id : String) (s : MemoryStore) (user : User)
    → get_user user_id s ≡ some user
    → clear_deleted user_id s ≡ (
      none,
      record s {
        users =
            insert user_id
              (record user { status = UserStatus.active; deleted_at = none; tombstone_at = none })
              s.users;
      },
    )
unfolding clear_deleted
clear_deleted_lem user_id s user found = rw (clear_deleted, found) refl

keep_none :
    {A : Type 0} (test : A → Bool) (xs : List A)
    → length (keep_if test (keep_if (λ x. not (test x)) xs)) ≡ 0
keep_none test [] = refl
keep_none test (x ∷ xs) = elim (Bool-cases (test x)) [
  | inl e ↦ rw e (keep_none test xs)
  | inr e ↦ rw (e, e) (keep_none test xs)
]

undelete_rows-restored :
    (new_id : ℕ → String) (user_id actor reason : String) (user : User) (now later : ℕ)
    (s : PrivacyState)
    → get_user user_id s.users ≡ some (deleted_user user now)
    → let answer = undelete_rows new_id user_id actor reason later s in
      (answer.0 ≡ none)
      × (get_user user_id answer.1.users ≡ some (restored_user user now))
      × ((delete_tombstones_for_user user_id answer.1.users).0 ≡ 0)
unfolding undelete_rows delete_tombstones_for_user
undelete_rows-restored new_id user_id actor reason user now later s found =
    let cleared = clear_deleted_lem user_id s.users (deleted_user user now) found in
    rw (undelete_rows, ap (λ a. a.0) cleared, ap (λ a. a.1) cleared)
      (
        refl,
        lookup-insert_self user_id (restored_user user now) s.users.users,
        keep_none (λ row. str_eq row.user_id user_id) s.users.tombstones,
      )

module _ {B : Type 0} (new_id : ℕ → String) (wipers : List (Option (DataWiper B)))
    (raw_id actor reason : String) where
  -- An undoing within the window, by the rows it leaves.
  undelete_user-in_time :
      (user : User) (now later : ℕ) (s : PrivacyState) (b back : B) (restored : Dict ℕ)
      → str_eq (trim_space raw_id) "" ≡ false
      → get_user (trim_space raw_id) s.users ≡ some (deleted_user user now)
      → later ≤ now + undelete_window
      → restore_all (trim_space raw_id) wipers [] b ≡ (ok restored, back)
      → undelete_user new_id wipers raw_id actor reason later s b ≡ (
        ok (insert "users" 1 restored),
        ((undelete_rows new_id (trim_space raw_id) actor reason later s).1, back),
      )
  unfolding undelete_user
  undelete_user-in_time user now later s b back restored named found in_time done =
      let open_window : ltb (now + undelete_window) later ≡ false = ground arith in
      let rows =
        undelete_rows-restored new_id (trim_space raw_id) actor reason user now later s found in
      rw (named, found, open_window, ap (λ a. a.0) done, rows.0, ap (λ a. a.1) done) refl

  undelete_user-too_late :
      (user : User) (now later : ℕ) (s : PrivacyState) (b : B)
      → str_eq (trim_space raw_id) "" ≡ false
      → get_user (trim_space raw_id) s.users ≡ some (deleted_user user now)
      → now + undelete_window < later
      → undelete_user new_id wipers raw_id actor reason later s b
        ≡ (err (AccountError.failed_precondition "undelete window has expired"), (s, b))
  unfolding undelete_user
  undelete_user-too_late user now later s b named found too_late =
      let closed : ltb (now + undelete_window) later ≡ true = ground arith in
      rw (named, found, closed) refl

-- The answers of a deletion at one time and of an undoing at another.
abbrev pub Answered : {A : Type 0} → Result AccountError A → Type 0
Answered (ok value) = Unit
Answered (err e) = ⊥

-- Of a user that is not deleted, with the right phrase, where the cascade succeeds: the deletion is answered, and
-- leaves the user as deleted and without a refresh token. An undoing at most 30 days later, where the wipers
-- restore, gives back the user, active and otherwise as it was but for the time of change, and leaves it no
-- tombstone.
pub undelete_user-delete_all_data :
    {B : Type 0} (new_id : ℕ → String) (raw_id code actor reason : String) (user : User)
    (now later : ℕ) (s : PrivacyState) (wipers : List (Option (DataWiper B)))
    (hard : List (Option (HardDeleter B))) (b rows back : B) (counts restored : Dict ℕ)
    (wiped : List (DataWiper B))
    → str_eq (trim_space raw_id) "" ≡ false
    → str_eq (trim_space code) confirmation_delete_my_data ≡ true
    → get_user (trim_space raw_id) s.users ≡ some user
    → user.deleted_at ≡ none
    → cascade (trim_space raw_id) now wipers hard b ≡ (ok (counts, wiped), rows)
    → restore_all (trim_space raw_id) wipers [] rows ≡ (ok restored, back)
    → later ≤ now + undelete_window
    → let deletion = delete_all_data new_id wipers hard raw_id code now s b in
      let undoing =
        undelete_user new_id wipers raw_id actor reason later deletion.1.0 deletion.1.1 in
      Answered deletion.0
      × IsDeleted (trim_space raw_id) user now deletion.1.0
      × Answered undoing.0
      × (get_user (trim_space raw_id) undoing.1.0.users ≡ some (restored_user user now))
      × ((delete_tombstones_for_user (trim_space raw_id) undoing.1.0.users).0 ≡ 0)
      × (undoing.1.1 ≡ back)
undelete_user-delete_all_data new_id raw_id code actor reason user now later s wipers hard b rows
      back counts restored wiped named confirmed found kept done undone in_time =
    let after = deleted_rows new_id (trim_space raw_id) user now s counts in
    let gone = deleted_rows-IsDeleted new_id (trim_space raw_id) user now s counts in
    let in_window =
      undelete_rows-restored new_id (trim_space raw_id) actor reason user now later after
        (gone.0) in
    rw
      (
        delete_all_data_lem new_id raw_id code user now s wipers hard b rows counts wiped named
            confirmed found kept done,
        undelete_user-in_time new_id wipers raw_id actor reason user now later after rows back
            restored named (gone.0) in_time undone,
      )
      (tt, gone, tt, in_window.1, in_window.2, refl)

-- After such a deletion, an undoing more than 30 days later is refused and changes nothing.
pub undelete_user-expired :
    {B : Type 0} (new_id : ℕ → String) (raw_id code actor reason : String) (user : User)
    (now later : ℕ) (s : PrivacyState) (wipers : List (Option (DataWiper B)))
    (hard : List (Option (HardDeleter B))) (b rows : B) (counts : Dict ℕ)
    (wiped : List (DataWiper B))
    → str_eq (trim_space raw_id) "" ≡ false
    → str_eq (trim_space code) confirmation_delete_my_data ≡ true
    → get_user (trim_space raw_id) s.users ≡ some user
    → user.deleted_at ≡ none
    → cascade (trim_space raw_id) now wipers hard b ≡ (ok (counts, wiped), rows)
    → now + undelete_window < later
    → let deletion = delete_all_data new_id wipers hard raw_id code now s b in
      undelete_user new_id wipers raw_id actor reason later deletion.1.0 deletion.1.1
      ≡ (err (AccountError.failed_precondition "undelete window has expired"), deletion.1)
undelete_user-expired new_id raw_id code actor reason user now later s wipers hard b rows counts
      wiped named confirmed found kept done too_late =
    rw
      (delete_all_data_lem new_id raw_id code user now s wipers hard b rows counts wiped named
        confirmed found kept done)
      (undelete_user-too_late new_id wipers raw_id actor reason user now later
        (deleted_rows new_id (trim_space raw_id) user now s counts) rows named
        (deleted_rows-IsDeleted new_id (trim_space raw_id) user now s counts).0 too_late)
