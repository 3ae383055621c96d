-- ===== src/Topic/Service.antt =====
-- internal/topic/service.go and streak.go: checking a card in, dismissing it, and the streak. `now` is the clock's reading.
use fluentwork_backend.Base.{
  ℕ, ◌+◌, String, Bool, false, not, ◌||◌, Option, none, some, List, [], str_eq, ltb, ◌==◌,
  if◌then◌else◌, is_some, length, keep_if, any, trim_space, Result, ok, err, utf8_length, max,
}
use fluentwork_backend.Topic.Store.{
  Card, Checkin, Streak, MemoryStore, TopicStoreError, day_length, utc_date, get_card,
  mark_checked_in, insert_checkin, mark_dismissed, get_streak, upsert_streak,
}

-- An apierr value with its message, or an error of the store that is passed on.
pub data TopicError : Type 0 where
  unauthenticated invalid_argument permission_denied api_not_found api_conflict :
      String → TopicError
  store_error : TopicStoreError → TopicError

-- What `UpdateOnCheckin` makes of a streak. A zero time is a day of its own, so `today - 1` is one day before.
unfoldable pub advance_streak : String → ℕ → Streak → Streak
advance_streak user_id now st =
    let today = utc_date now in
    let held = record st { user_id = user_id; deleted_at = none; updated_at = now } in
    let current : ℕ = elim st.last_checkin_date [
      | none ↦ 1
      | some last ↦ if utc_date last + day_length == today then st.current_streak + 1 else 1
    ] in
    let stepped = record held {
      current_streak = current;
      longest_streak = max st.longest_streak current;
      last_checkin_date = some today;
    } in
    if elim st.last_checkin_date [ none ↦ false | some last ↦ utc_date last == today ]
    then held
    else stepped

-- `UpdateOnCheckin`
unfoldable pub update_on_checkin : String → ℕ → MemoryStore → Streak × MemoryStore
unfolding advance_streak
update_on_checkin user_id now s =
    let streak = advance_streak user_id now (get_streak user_id s) in
    (streak, upsert_streak streak s)

-- `RealUseLedger`: how many blocks were credited, or an error, which is only logged.
pub record RealUseLedger (B : Type 0) : Type 0 where
  pub record_real_use : String → List String → String → String → B → Option ℕ × B

pub record CheckinResult : Type 0 where
  pub checkin_id : String
  pub streak_days : ℕ
  pub recorded_use : ℕ
  pub ignored_block_ids : List String

-- `MaxReflectionLen`
abbrev pub max_reflection_len : ℕ
max_reflection_len = 500

abbrev is_offered : List String → String → Bool
is_offered block_ids id = any (λ other. str_eq other id) block_ids

-- The credit of the blocks that the card offers, if a recorder is attached and there are any.
unfoldable pub credit_blocks :
    {B : Type 0}
    → Option (RealUseLedger B)
    → String
    → List String
    → List String
    → String
    → B
    → (ℕ × List String) × B
credit_blocks none user_id offered used row_id b = ((0, []), b)
credit_blocks (some real_uses) user_id offered used row_id b =
    let allowed = keep_if (is_offered offered) used in
    let ignored = keep_if (λ id. not (is_offered offered id)) used in
    let (credited, after) = real_uses.record_real_use user_id allowed "checkin" row_id b in
    let count = elim credited as (λ _. ℕ) [ none ↦ 0 | some n ↦ n ] in
    if length allowed == 0 then ((0, ignored), b) else ((count, ignored), after)

-- `Checkin` from `MarkCheckedIn` on, with the id of the row
unfoldable pub check_in_card :
    {B : Type 0}
    → Option (RealUseLedger B)
    → String
    → Card
    → String
    → String
    → List String
    → String
    → ℕ
    → MemoryStore
    → B
    → Result TopicError CheckinResult × (MemoryStore × B)
unfolding credit_blocks update_on_checkin
check_in_card real_uses user_id card card_id reflection used row_id now s b =
    let (not_marked, marked) = mark_checked_in card_id now s in
    let row : Checkin = record {
      id = row_id;
      card_id = card_id;
      user_id = user_id;
      reflection = trim_space reflection;
      deleted_at = none;
      created_at = now;
    } in
    let (not_inserted, inserted) = insert_checkin row marked in
    let ((credited, ignored), after) =
      credit_blocks real_uses user_id card.block_ids used row_id b in
    let (streak, done) = update_on_checkin user_id now inserted in
    elim not_marked [
      | some TopicStoreError.conflict ↦
          (err (TopicError.api_conflict "topic card already checked in"), (s, b))
      | some TopicStoreError.not_found ↦
          (err (TopicError.api_not_found "topic card not found"), (s, b))
      | some e ↦ (err (TopicError.store_error e), (s, b))
      | none ↦ elim not_inserted [
        | some e ↦ (err (TopicError.store_error e), (marked, b))
        | none ↦ (
          ok (record {
            checkin_id = row_id;
            streak_days = streak.current_streak;
            recorded_use = credited;
            ignored_block_ids = ignored;
          }),
          (done, after),
        )
      ]
    ]

-- `Checkin`
unfoldable pub check_in :
    {B : Type 0}
    → Option (RealUseLedger B)
    → String
    → String
    → String
    → List String
    → String
    → ℕ
    → MemoryStore
    → B
    → Result TopicError CheckinResult × (MemoryStore × B)
unfolding check_in_card
check_in real_uses raw_user raw_card reflection used row_id now s b =
    let user_id = trim_space raw_user in
    let card_id = trim_space raw_card in
    if str_eq user_id ""
    then (err (TopicError.unauthenticated "missing authenticated user"), (s, b))
    else if str_eq card_id ""
    then (err (TopicError.invalid_argument "card_id is required"), (s, b))
    else if ltb max_reflection_len (utf8_length reflection)
    then (err (TopicError.invalid_argument "reflection exceeds 500 bytes"), (s, b))
    else elim (get_card card_id s) [
      | none ↦ (err (TopicError.api_not_found "topic card not found"), (s, b))
      | some card ↦
          if not (str_eq card.user_id user_id)
          then (err (TopicError.permission_denied "topic card not owned by caller"), (s, b))
          else if is_some card.deleted_at
          then (err (TopicError.api_not_found "topic card not found"), (s, b))
          else check_in_card real_uses user_id card card_id reflection used row_id now s b
    ]

-- `ValidDismissReason`
unfoldable pub valid_dismiss_reason : String → Bool
valid_dismiss_reason reason =
    str_eq reason "no_partner"
    || str_eq reason "not_confident"
    || str_eq reason "no_time"
    || str_eq reason "not_relevant"

-- `Dismiss`, with whether the card was dismissed already
unfoldable pub dismiss :
    String → String → String → ℕ → MemoryStore → Result TopicError Bool × MemoryStore
unfolding valid_dismiss_reason
dismiss raw_user raw_card raw_reason now s =
    let user_id = trim_space raw_user in
    let card_id = trim_space raw_card in
    let reason = trim_space raw_reason in
    let (first, after) = mark_dismissed card_id reason now s in
    if str_eq user_id ""
    then (err (TopicError.unauthenticated "missing authenticated user"), s)
    else if str_eq card_id ""
    then (err (TopicError.invalid_argument "card_id is required"), s)
    else if not (valid_dismiss_reason reason)
    then (
      err (
          TopicError.invalid_argument
            "reason must be no_partner, not_confident, no_time or not_relevant"),
      s,
    )
    else elim (get_card card_id s) [
      | none ↦ (err (TopicError.api_not_found "topic card not found"), s)
      | some card ↦
          if not (str_eq card.user_id user_id) || is_some card.deleted_at
          then (err (TopicError.api_not_found "topic card not found"), s)
          else elim first [
            | none ↦ (err (TopicError.api_not_found "topic card not found"), s)
            | some marked ↦ (ok (not marked), after)
          ]
    ]
