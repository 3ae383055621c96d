-- ===== src/Examples/Drill.antt =====
-- internal/drill: an appeal at concrete inputs.
use fluentwork_backend.Base.{◌≡◌, refl, true, false, none, some, pos, trim_space, lookup, ok}
use fluentwork_backend.Corpus.Types.{training, state_eq}
use fluentwork_backend.Corpus.Store.{MemoryStore, update_schedule, live_block}
use fluentwork_backend.Drill.Records.{
  Record, MemoryRecordStore, insert_record, empty_ledger, get_record, is_latest_for_block,
  mark_appealed,
}
use fluentwork_backend.Drill.Appeals.{AppealResponse, appeal}
use fluentwork_backend.Drill.Appeals.Once.{appeal-once}
use fluentwork_backend.Examples.Corpus.{two_learners}

-- A failed attempt on a block that stood at the second rung and was due at 90.
abbrev failed : Record
failed = record {
  id = 0;
  user_id = "anna";
  block_id = "b1";
  session_id = "s";
  drill_type = pos 1;
  semantic_pass = false;
  judged = true;
  response_ms = pos 900;
  asr_text = "walk me";
  judge_reason = "misses the point";
  prev_state = training;
  prev_success_streak = pos 1;
  prev_next_due_at = 90;
  appealed_at = none;
  created_at = 95;
}

abbrev ledger : MemoryRecordStore
ledger = (insert_record 95 failed empty_ledger).1

abbrev restored : AppealResponse
restored = record {
  record_id = 1;
  block_id = "b1";
  restored = true;
  already_appealed = false;
  state = training;
  success_streak = pos 1;
  next_due_at = some 90;
  note = "";
}

-- What the first appeal leaves.
abbrev appealed : MemoryRecordStore × MemoryStore
appealed = (appeal " anna " (pos 1) 200 ledger two_learners).1

appeal_restores : (appeal " anna " (pos 1) 200 ledger two_learners).0 ≡ ok restored
unfolding appeal insert_record trim_space get_record state_eq is_latest_for_block update_schedule
    live_block lookup mark_appealed
appeal_restores = refl

appeal-once_example :
    (again : AppealResponse) × (appeal " anna " (pos 1) 300 appealed.0 appealed.1
      ≡ (ok again, appealed))
    × (again.already_appealed ≡ true)
    × (again.restored ≡ false)
unfolding appeal insert_record trim_space get_record state_eq is_latest_for_block update_schedule
    live_block lookup mark_appealed
appeal-once_example =
    appeal-once " anna " (pos 1) 200 300 ledger two_learners restored appealed refl
