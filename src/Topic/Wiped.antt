-- ===== src/Topic/Wiped.antt =====
-- internal/topic/memory_store.go: what an undone deletion leaves of the check-ins.
use fluentwork_backend.Base.{
  ℕ, String, ◌≡◌, refl, Bool, false, not, ◌&&◌, some, [], ◌∷◌, arith, str_eq, leb, if◌then◌else◌,
  is_some, length, keep_if, Dict, update_all, values,
}
use fluentwork_backend.Topic.Store.{
  Checkin, MemoryStore, is_live_checkin, soft_delete_all_for_user, restore_deleted_for_user,
  count_checkins_since,
}

keep_if-update_all :
    {V : Type 0} (test : V → Bool) (f : V → V)
    → ((v : V) → test (f v) ≡ false)
    → (entries : Dict V) → length (keep_if test (values (update_all f entries))) ≡ 0
unfolding update_all
keep_if-update_all test f law [] = refl
keep_if-update_all test f law ((key, value) ∷ entries) =
    rw (law value) (keep_if-update_all test f law entries)

counts_none :
    (user_id : String) (since at : ℕ) (row : Checkin)
    → (str_eq
          (if is_live_checkin user_id row then record row { deleted_at = some at } else row).user_id
          user_id
        && not (
            is_some
              (if is_live_checkin user_id row
                then record row { deleted_at = some at }
                else row).deleted_at)
        && leb since
            (if is_live_checkin user_id row
              then record row { deleted_at = some at }
              else row).created_at)
      ≡ false
counts_none user_id since at row = ground arith

-- In the in-memory store, a user whose data was deleted and restored has no check-in that counts, at any time: the
-- undoing does not bring the check-ins back.
pub count_checkins_since-restored :
    (user_id : String) (at since : ℕ) (s : MemoryStore)
    → count_checkins_since user_id since
        (restore_deleted_for_user user_id (soft_delete_all_for_user user_id at s).1).1
      ≡ 0
unfolding count_checkins_since restore_deleted_for_user soft_delete_all_for_user
count_checkins_since-restored user_id at since s =
    keep_if-update_all _ _ (counts_none user_id since at) s.checkins
