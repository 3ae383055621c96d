-- ===== src/Drill/Records.antt =====
-- internal/drill/record_store.go and types.go: the in-memory ledger of attempts. A method gives its result and the
-- ledger after it; `none` is ErrRecordNotFound.
use fluentwork_backend.Base.{
  ℕ, ◌+◌, String, Bool, true, false, not, ◌&&◌, ◌||◌, Option, none, some, List, [], ◌∷◌, ◌++◌,
  str_eq, ltb, ◌==◌, if◌then◌else◌, is_some, ℤ, length, keep_if, sort_by,
}
use fluentwork_backend.Corpus.Types.{BlockState, new, state_eq}

-- An empty PrevState is `other ""`.
pub record Record : Type 0 where
  pub id : ℕ
  pub user_id : String
  pub block_id : String
  pub session_id : String
  pub drill_type : ℤ
  pub semantic_pass : Bool
  pub judged : Bool
  pub response_ms : ℤ
  pub asr_text : String
  pub judge_reason : String
  pub prev_state : BlockState
  pub prev_success_streak : ℤ
  pub prev_next_due_at : ℕ
  pub appealed_at : Option ℕ
  pub created_at : ℕ

-- `MemoryRecordStore`
pub record MemoryRecordStore : Type 0 where
  pub next_id : ℕ
  pub records : List Record

-- `NewMemoryRecordStore`
abbrev pub empty_ledger : MemoryRecordStore
empty_ledger = record { next_id = 0; records = [] }

-- `Insert`, which reads the clock where the attempt has no time.
unfoldable pub insert_record : ℕ → Record → MemoryRecordStore → ℕ × MemoryRecordStore
insert_record now rec s =
    let id = s.next_id + 1 in
    let row : Record = record rec {
      id = id;
      created_at = if rec.created_at == 0 then now else rec.created_at;
    } in
    (id, record { next_id = id; records = s.records ++ (row ∷ []) })

-- Whether an attempt has an id and a user.
abbrev pub is_record : String → ℕ → Record → Bool
is_record user_id record_id rec = rec.id == record_id && str_eq rec.user_id user_id

-- The loop of `GetRecord`
unfoldable pub find_record : String → ℕ → List Record → Option Record
find_record user_id record_id [] = none
find_record user_id record_id (rec ∷ records) =
    let rest = find_record user_id record_id records in
    if is_record user_id record_id rec then some rec else rest

-- `GetRecord`
unfoldable pub get_record : String → ℕ → MemoryRecordStore → Option Record
unfolding find_record
get_record user_id record_id s = find_record user_id record_id s.records

abbrev pub behind : Record → Option (Bool × List Record) → Option (Bool × List Record)
behind rec none = none
behind rec (some marked) = some (marked.0, rec ∷ marked.1)

-- The loop of `MarkAppealed`: whether this call is the one that stamps.
unfoldable pub mark_record : String → ℕ → ℕ → List Record → Option (Bool × List Record)
mark_record user_id record_id at [] = none
mark_record user_id record_id at (rec ∷ records) =
    let rest = mark_record user_id record_id at records in
    if not (is_record user_id record_id rec)
    then behind rec rest
    else if is_some rec.appealed_at
    then some (false, rec ∷ records)
    else some (true, record rec { appealed_at = some at } ∷ records)

-- `MarkAppealed`
unfoldable pub mark_appealed : String → ℕ → ℕ → MemoryRecordStore → Option Bool × MemoryRecordStore
unfolding mark_record
mark_appealed user_id record_id at s = elim (mark_record user_id record_id at s.records) [
  | none ↦ (none, s)
  | some marked ↦ (some marked.0, record s { records = marked.1 })
]

-- `ListRecordsSince`
unfoldable pub list_records_since : String → ℕ → MemoryRecordStore → List Record
list_records_since user_id since s =
    sort_by (λ a b. ltb a.id b.id)
      (keep_if (λ rec. not (not (str_eq rec.user_id user_id) || ltb rec.created_at since))
        s.records)

-- `CountNewReleasesSince`
unfoldable pub count_new_releases_since : String → ℕ → MemoryRecordStore → ℕ
count_new_releases_since user_id since s = length (
    keep_if
      (λ rec.
        str_eq rec.user_id user_id && state_eq rec.prev_state new && not (ltb rec.created_at since))
      s.records)

-- The loop of `IsLatestForBlock`
unfoldable pub latest_id : String → String → ℕ → List Record → ℕ
latest_id user_id block_id latest [] = latest
latest_id user_id block_id latest (rec ∷ records) =
    let newer = latest_id user_id block_id rec.id records in
    let same = latest_id user_id block_id latest records in
    if not (str_eq rec.user_id user_id) || not (str_eq rec.block_id block_id)
    then same
    else if ltb latest rec.id
    then newer
    else same

-- `IsLatestForBlock`
unfoldable pub is_latest_for_block : String → String → ℕ → MemoryRecordStore → Option Bool
unfolding latest_id
is_latest_for_block user_id block_id record_id s =
    let latest = latest_id user_id block_id 0 s.records in
    if latest == 0 then none else some (latest == record_id)

-- `DeleteForUser`
unfoldable pub delete_for_user : String → MemoryRecordStore → ℕ × MemoryRecordStore
delete_for_user user_id s = (
  length (keep_if (λ rec. str_eq rec.user_id user_id) s.records),
  record s { records = keep_if (λ rec. not (str_eq rec.user_id user_id)) s.records },
)
