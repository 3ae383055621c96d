-- ===== src/Drill/Appeals.antt =====
-- internal/drill/service.go: appeals against the judgement of an attempt, over the ledger and the corpus store. `now`
-- is the clock's reading.
pub mod Once
use fluentwork_backend.Base.{
  ℕ, String, Bool, true, false, not, ◌||◌, Option, none, some, str_eq, if◌then◌else◌, is_some, ℤ,
  pos, pos_part, leb_ℤ, trim_space, Result, ok, err,
}
use fluentwork_backend.Corpus.Types.{BlockState, other, state_eq, PhraseBlock}
use fluentwork_backend.Corpus.Store.{MemoryStore, peek_block, update_schedule}
use fluentwork_backend.Drill.Records.{
  Record, MemoryRecordStore, get_record, mark_appealed, is_latest_for_block,
}

-- `AppealResponse`; the time is not formatted, and `none` is the empty text.
pub record AppealResponse : Type 0 where
  pub record_id : ℕ
  pub block_id : String
  pub restored : Bool
  pub already_appealed : Bool
  pub state : BlockState
  pub success_streak : ℤ
  pub next_due_at : Option ℕ
  pub note : String

-- An apierr value with its message, or the store's ErrRecordNotFound.
pub data DrillError : Type 0 where
  unauthenticated invalid_argument api_not_found : String → DrillError
  record_not_found : DrillError

-- The response for an attempt before anything is done.
abbrev pub response_to : Record → AppealResponse
response_to rec = record {
  record_id = rec.id;
  block_id = rec.block_id;
  restored = false;
  already_appealed = false;
  state = other "";
  success_streak = pos 0;
  next_due_at = none;
  note = "";
}

abbrev pub with_schedule : PhraseBlock → AppealResponse → AppealResponse
with_schedule block resp = record resp {
  state = block.state;
  success_streak = block.success_streak;
  next_due_at = some block.next_due_at;
}

-- `fillAppealBlockState`
unfoldable pub fill_appeal_block_state : String → AppealResponse → MemoryStore → AppealResponse
fill_appeal_block_state user_id resp s = elim (peek_block resp.block_id s) [
  | none ↦ resp
  | some block ↦
      if not (str_eq block.user_id user_id) || is_some block.deleted_at
      then resp
      else with_schedule block resp
]

-- The schedule before the attempt is put back.
abbrev pub put_back :
    String → Record → ℕ → MemoryStore → Result DrillError AppealResponse × MemoryStore
put_back user_id rec now s =
    let (saved, after) =
      update_schedule user_id rec.block_id rec.prev_state rec.prev_success_streak
        rec.prev_next_due_at now s in
    elim saved [
      | none ↦ (err (DrillError.api_not_found "phrase block not found"), after)
      | some block ↦
          (ok (with_schedule block (record (response_to rec) { restored = true })), after)
    ]

-- The switch of `Appeal`: what is restored, and the note.
unfoldable pub restore_snapshot :
    String
    → Record
    → ℕ
    → MemoryRecordStore
    → MemoryStore
    → Result DrillError AppealResponse × MemoryStore
restore_snapshot user_id rec now r s =
    let noted : String → Result DrillError AppealResponse × MemoryStore =
      λ note. (ok (record (response_to rec) { note = note }), s) in
    if not rec.judged
    then noted "attempt was not judged; nothing to restore"
    else if rec.semantic_pass
    then noted "attempt passed; nothing to restore"
    else if state_eq rec.prev_state (other "")
    then noted "no schedule snapshot on this attempt"
    else elim (is_latest_for_block user_id rec.block_id rec.id r) [
      | none ↦ (err DrillError.record_not_found, s)
      | some latest ↦
          if not latest
          then noted "a newer attempt exists on this block"
          else put_back user_id rec now s
    ]

-- `Appeal` once the switch has answered: the stamp, and the block's state where it is not known yet.
unfoldable pub stamp_appeal :
    String
    → Record
    → ℕ
    → MemoryRecordStore
    → Result DrillError AppealResponse × MemoryStore
    → Result DrillError AppealResponse × (MemoryRecordStore × MemoryStore)
unfolding fill_appeal_block_state
stamp_appeal user_id rec now r (err e, s) = (err e, (r, s))
stamp_appeal user_id rec now r (ok resp, s) =
    let (first, after) = mark_appealed user_id rec.id now r in
    elim first [
      | none ↦ (err (DrillError.api_not_found "drill record not found"), (after, s))
      | some stamped ↦
          let told = record resp { already_appealed = not stamped } in
          (
            ok (
                if state_eq told.state (other "")
                then fill_appeal_block_state user_id told s
                else told),
            (after, s),
          )
    ]

-- What is answered for an attempt that has been appealed before.
abbrev pub repeated : String → Record → MemoryStore → AppealResponse
repeated user_id rec s =
    fill_appeal_block_state user_id
      (record (response_to rec) { already_appealed = true; note = "already appealed" }) s

-- `Appeal`
unfoldable pub appeal :
    String
    → ℤ
    → ℕ
    → MemoryRecordStore
    → MemoryStore
    → Result DrillError AppealResponse × (MemoryRecordStore × MemoryStore)
unfolding restore_snapshot stamp_appeal fill_appeal_block_state
appeal raw_user record_id now r s =
    let user_id = trim_space raw_user in
    if str_eq user_id ""
    then (err (DrillError.unauthenticated "missing authenticated user"), (r, s))
    else if leb_ℤ record_id (pos 0)
    then (err (DrillError.invalid_argument "record_id is required"), (r, s))
    else elim (get_record user_id (pos_part record_id) r) [
      | none ↦ (err (DrillError.api_not_found "drill record not found"), (r, s))
      | some rec ↦
          if is_some rec.appealed_at
          then (ok (repeated user_id rec s), (r, s))
          else stamp_appeal user_id rec now r (restore_snapshot user_id rec now r s)
    ]
