-- ===== src/Topic/Store.antt =====
-- internal/topic/memory_store.go and model.go: the in-memory store of cards, check-ins and streaks.
use fluentwork_backend.Base.{
  ℕ, ◌+◌, ◌*◌, ◌/◌, String, Bool, true, false, not, ◌&&◌, Option, none, some, List, [], ◌∷◌, str_eq,
  leb, ◌==◌, if◌then◌else◌, is_some, length, keep_if, any, Dict, lookup, insert, update_all, values,
  hour,
}

pub record Card : Type 0 where
  pub id : String
  pub user_id : String
  pub for_date : ℕ
  pub title : String
  pub prompt_en : String
  pub prompt_zh : String
  pub card_type : String
  pub seed_tags : List String
  pub block_ids : List String
  pub source_note : String
  pub valid_until : ℕ
  pub checked_in_at : Option ℕ
  pub dismissed_at : Option ℕ
  pub dismiss_reason : String
  pub deleted_at : Option ℕ
  pub created_at : ℕ
  pub updated_at : ℕ

pub record Checkin : Type 0 where
  pub id : String
  pub card_id : String
  pub user_id : String
  pub reflection : String
  pub deleted_at : Option ℕ
  pub created_at : ℕ

pub record Streak : Type 0 where
  pub user_id : String
  pub current_streak : ℕ
  pub longest_streak : ℕ
  pub last_checkin_date : Option ℕ
  pub deleted_at : Option ℕ
  pub updated_at : ℕ

pub record MemoryStore : Type 0 where
  pub cards : Dict Card
  pub checkins : Dict Checkin
  pub streaks : Dict Streak

-- `ErrNotFound`, `ErrConflict`, and the errors of fmt.Errorf.
pub data TopicStoreError : Type 0 where
  not_found conflict duplicate_card duplicate_checkin : TopicStoreError

-- The nanoseconds of a day
abbrev pub day_length : ℕ
day_length = 24 * hour

-- `utcDate`
abbrev pub utc_date : ℕ → ℕ
utc_date t = t / day_length * day_length

abbrev is_card_of_day : String → ℕ → Card → Bool
is_card_of_day user_id day card = str_eq card.user_id user_id && utc_date card.for_date == day

-- `ListTodayCards`, in the order in which the loop meets the cards
unfoldable pub list_today_cards : String → ℕ → MemoryStore → List Card
list_today_cards user_id for_date s =
    keep_if
      (λ card. is_card_of_day user_id (utc_date for_date) card && not (is_some card.deleted_at))
      (values s.cards)

-- `HasCardsForDate`
unfoldable pub has_cards_for_date : String → ℕ → MemoryStore → Bool
has_cards_for_date user_id for_date s =
    any (is_card_of_day user_id (utc_date for_date)) (values s.cards)

-- `GetCard`
abbrev pub get_card : String → MemoryStore → Option Card
get_card card_id s = lookup card_id s.cards

-- `InsertCards`: those before a duplicate stay.
unfoldable pub insert_cards : List Card → MemoryStore → Option TopicStoreError × MemoryStore
insert_cards [] s = (none, s)
insert_cards (card ∷ cards) s =
    let rest = insert_cards cards (record s { cards = insert card.id card s.cards }) in
    if is_some (lookup card.id s.cards) then (some TopicStoreError.duplicate_card, s) else rest

-- `MarkCheckedIn`
unfoldable pub mark_checked_in : String → ℕ → MemoryStore → Option TopicStoreError × MemoryStore
mark_checked_in card_id at s = elim (lookup card_id s.cards) [
  | none ↦ (some TopicStoreError.not_found, s)
  | some card ↦ if is_some card.checked_in_at then (some TopicStoreError.conflict, s) else (
    none,
    record s {
      cards = insert card_id (record card { checked_in_at = some at; updated_at = at }) s.cards;
    },
  )
]

-- `InsertCheckin`
unfoldable pub insert_checkin : Checkin → MemoryStore → Option TopicStoreError × MemoryStore
insert_checkin row s =
    if is_some (lookup row.id s.checkins)
    then (some TopicStoreError.duplicate_checkin, s)
    else (none, record s { checkins = insert row.id row s.checkins })

-- `MarkDismissed`; `none` stands for ErrNotFound.
unfoldable pub mark_dismissed : String → String → ℕ → MemoryStore → Option Bool × MemoryStore
mark_dismissed card_id reason at s = elim (lookup card_id s.cards) [
  | none ↦ (none, s)
  | some card ↦
      if is_some card.deleted_at
      then (none, s)
      else if is_some card.dismissed_at
      then (some false, s)
      else (
        some true,
        record s {
          cards =
              insert card_id
                (record card { dismissed_at = some at; dismiss_reason = reason; updated_at = at })
                s.cards;
        },
      )
]

-- `CountCheckinsSince`
unfoldable pub count_checkins_since : String → ℕ → MemoryStore → ℕ
count_checkins_since user_id since s = length (
    keep_if
      (λ row.
        str_eq row.user_id user_id && not (is_some row.deleted_at) && leb since row.created_at)
      (values s.checkins))

-- `CountCardsSince`
unfoldable pub count_cards_since : String → ℕ → MemoryStore → ℕ
count_cards_since user_id since s = length (
    keep_if
      (λ card.
        str_eq card.user_id user_id && not (is_some card.deleted_at) && leb since card.created_at)
      (values s.cards))

-- `GetStreak`; the time of a new row is zero.
unfoldable pub get_streak : String → MemoryStore → Streak
get_streak user_id s = elim (lookup user_id s.streaks) [
  | some streak ↦ streak
  | none ↦ record {
    user_id = user_id;
    current_streak = 0;
    longest_streak = 0;
    last_checkin_date = none;
    deleted_at = none;
    updated_at = 0;
  }
]

-- `UpsertStreak`
abbrev pub upsert_streak : Streak → MemoryStore → MemoryStore
upsert_streak streak s = record s { streaks = insert streak.user_id streak s.streaks }

-- A streak that a wipe or its undoing has met.
abbrev write_streak : String → Option Streak → Dict Streak → Dict Streak
write_streak user_id none streaks = streaks
write_streak user_id (some streak) streaks = insert user_id streak streaks

abbrev count_streak : Option Streak → ℕ
count_streak none = 0
count_streak (some streak) = 1

-- The streak as the wipe leaves it, if it is not wiped yet.
abbrev wiped_streak : ℕ → Option Streak → Option Streak
wiped_streak at none = none
wiped_streak at (some streak) =
    if is_some streak.deleted_at
    then none
    else some (record streak { deleted_at = some at; updated_at = at })

-- The streak as the undoing leaves it, if it was wiped.
abbrev restored_streak : Option Streak → Option Streak
restored_streak none = none
restored_streak (some streak) =
    if is_some streak.deleted_at then some (record streak { deleted_at = none }) else none

abbrev is_live_card : String → Card → Bool
is_live_card user_id card = str_eq card.user_id user_id && not (is_some card.deleted_at)

abbrev is_wiped_card : String → Card → Bool
is_wiped_card user_id card = str_eq card.user_id user_id && is_some card.deleted_at

abbrev pub is_live_checkin : String → Checkin → Bool
is_live_checkin user_id row = str_eq row.user_id user_id && not (is_some row.deleted_at)

-- `SoftDeleteAllForUser`
unfoldable pub soft_delete_all_for_user : String → ℕ → MemoryStore → ℕ × MemoryStore
soft_delete_all_for_user user_id at s =
    let streak = wiped_streak at (lookup user_id s.streaks) in
    (
      length (keep_if (is_live_card user_id) (values s.cards))
          + length (keep_if (is_live_checkin user_id) (values s.checkins))
          + count_streak streak,
      record {
        cards =
            update_all
              (λ card.
                if is_live_card user_id card
                then record card { deleted_at = some at; updated_at = at }
                else card)
              s.cards;
        checkins =
            update_all
              (λ row.
                if is_live_checkin user_id row then record row { deleted_at = some at } else row)
              s.checkins;
        streaks = write_streak user_id streak s.streaks;
      },
    )

-- `RestoreDeletedForUser`, which leaves the check-ins deleted
unfoldable pub restore_deleted_for_user : String → MemoryStore → ℕ × MemoryStore
restore_deleted_for_user user_id s =
    let streak = restored_streak (lookup user_id s.streaks) in
    (
      length (keep_if (is_wiped_card user_id) (values s.cards)) + count_streak streak,
      record s {
        cards =
            update_all
              (λ card.
                if is_wiped_card user_id card then record card { deleted_at = none } else card)
              s.cards;
        streaks = write_streak user_id streak s.streaks;
      },
    )
