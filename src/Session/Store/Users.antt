-- ===== src/Session/Store/Users.antt =====
-- internal/session/memory_store.go: the methods that serve a whole account.
use fluentwork_backend.Session.Types.{Session}
use fluentwork_backend.Session.Store.Defs.{MemoryStore}
use fluentwork_backend.Base.{
  ℕ, String, Bool, true, not, ◌&&◌, ◌||◌, Option, none, some, List, [], str_eq, ltb, ◌==◌,
  if◌then◌else◌, is_some, ℤ, pos, pos_part, ltb_ℤ, length, take, keep_if, str_lt, update_all,
  values, sort_by,
}

-- `ReassignUser`; `now` is the clock's reading.
unfoldable pub reassign_user : String → String → ℕ → MemoryStore → MemoryStore
reassign_user from_user_id to_user_id now s = record s {
  sessions =
      update_all
        (λ session.
          if str_eq session.user_id from_user_id
          then record session { user_id = to_user_id; updated_at = now }
          else session)
        s.sessions;
  tickets =
      update_all
        (λ ticket.
          if str_eq ticket.user_id from_user_id
          then record ticket { user_id = to_user_id }
          else ticket)
        s.tickets;
}

abbrev pub is_kept_of : String → Session → Bool
is_kept_of user_id session = str_eq session.user_id user_id && not (is_some session.deleted_at)

abbrev pub is_deleted_of : String → Session → Bool
is_deleted_of user_id session = str_eq session.user_id user_id && is_some session.deleted_at

-- `SoftDeleteForUser`
unfoldable pub soft_delete_for_user : String → ℕ → MemoryStore → ℕ × MemoryStore
soft_delete_for_user user_id at s = (
  length (keep_if (is_kept_of user_id) (values s.sessions)),
  record s {
    sessions =
        update_all
          (λ session.
            if is_kept_of user_id session
            then record session { deleted_at = some at; updated_at = at }
            else session)
          s.sessions;
  },
)

-- `RestoreDeletedForUser`
unfoldable pub restore_deleted_for_user : String → MemoryStore → ℕ × MemoryStore
restore_deleted_for_user user_id s = (
  length (keep_if (is_deleted_of user_id) (values s.sessions)),
  record s {
    sessions =
        update_all
          (λ session.
            if is_deleted_of user_id session then record session { deleted_at = none } else session)
          s.sessions;
  },
)

-- The row that `ListSessions` may return: of the user, not deleted, and after the cursor.
unfoldable pub is_listed : String → Option ℕ → String → Session → Bool
is_listed user_id last_started_at last_id session =
    is_kept_of user_id session && elim last_started_at [
      | none ↦ true
      | some cursor_at ↦
          ltb session.created_at cursor_at
          || session.created_at == cursor_at && str_lt session.id last_id
    ]

-- Newest first, then by id from the last.
unfoldable pub is_newer : Session → Session → Bool
is_newer a b =
    if a.created_at == b.created_at then str_lt b.id a.id else ltb b.created_at a.created_at

-- `ListSessions`
unfoldable pub list_sessions : String → Option ℕ → String → ℤ → MemoryStore → List Session
unfolding is_listed is_newer
list_sessions user_id last_started_at last_id limit s =
    if ltb_ℤ limit (pos 1)
    then []
    else take (pos_part limit)
        (sort_by is_newer (keep_if (is_listed user_id last_started_at last_id) (values s.sessions)))
