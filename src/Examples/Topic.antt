-- ===== src/Examples/Topic.antt =====
-- internal/topic: streaks and check-ins at concrete inputs.
use fluentwork_backend.Base.{◌+◌, ◌*◌, ◌≡◌, refl, none, [], ◌∷◌, arith, lookup}
use fluentwork_backend.Topic.Store.{
  MemoryStore, day_length, get_streak, soft_delete_all_for_user, restore_deleted_for_user,
  count_checkins_since,
}
use fluentwork_backend.Topic.Streaks.{Tells, check_ins, days_of, day_of, check_ins-Tells}
use fluentwork_backend.Topic.Wiped.{count_checkins_since-restored}

abbrev one_checkin : MemoryStore
one_checkin = record {
  cards = [];
  checkins =
      (
        "k",
        record {
          id = "k";
          card_id = "c";
          user_id = "anna";
          reflection = "";
          deleted_at = none;
          created_at = 5;
        },
      )
      ∷ [];
  streaks = [];
}

-- Check-ins on the days 1, 2 and 4, and once more on day 4.
check_ins-Tells_example :
    Tells
      (get_streak "anna" (
        check_ins "anna"
          ((4 * day_length + 9) ∷ (4 * day_length) ∷ (2 * day_length + 3) ∷ day_length ∷ [])
          one_checkin))
      (days_of ((4 * day_length + 9) ∷ (4 * day_length) ∷ (2 * day_length + 3) ∷ day_length ∷ []))
      (day_of (4 * day_length + 9))
check_ins-Tells_example =
    check_ins-Tells "anna" (4 * day_length + 9)
      ((4 * day_length) ∷ (2 * day_length + 3) ∷ day_length ∷ []) one_checkin
      (
        (omega arith, (omega arith, (omega arith, tt))),
        ((omega arith, (omega arith, tt)), ((omega arith, tt), (tt, tt))),
      )
      (unfold get_streak lookup in refl)

count_checkins_since-restored_example :
    count_checkins_since "anna" 0
      (restore_deleted_for_user "anna" (soft_delete_all_for_user "anna" 9 one_checkin).1).1
    ≡ 0
count_checkins_since-restored_example = count_checkins_since-restored "anna" 9 0 one_checkin
