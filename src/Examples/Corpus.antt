-- ===== src/Examples/Corpus.antt =====
-- internal/corpus: its schedule and its store at concrete inputs.
use fluentwork_backend.Base.{
  ◌<◌, String, ◌≡◌, true, false, none, List, [], ◌∷◌, str_eq, pos, take, keep_if, Dict, lookup,
  values, HasKeysOnce,
}
use fluentwork_backend.Corpus.Types.{new, PhraseBlock, Feedback, Hit}
use fluentwork_backend.Corpus.Schedule.{default_schedule, apply_judge}
use fluentwork_backend.Corpus.Schedule.Ladder.{apply_judge-due_later}
use fluentwork_backend.Corpus.Store.{MemoryStore, record_hits}
use fluentwork_backend.Corpus.Store.Tenancy.{
  KeepsOthers, UserCall, hits, deletes, restores_all, user_calls, user_calls-KeepsOthers,
}
use fluentwork_backend.Corpus.Store.Replay.{SameProgress, record_hits-replay}
use fluentwork_backend.Corpus.Hits.{RecentHit, is_among, dedupe_hits, apply_lookback}
use fluentwork_backend.Corpus.Hits.Latest.{IsKept, reports_of, dedupe_hits-latest}
use fluentwork_backend.Corpus.Hits.Lookback.{distinct_turns, apply_lookback-first}

abbrev pub ask_again : PhraseBlock
ask_again = record {
  id = "b1";
  user_id = "anna";
  intent_zh = "追问";
  expression_en = "Could you walk me through that?";
  expression_version = pos 1;
  anchor_user_said = "say again";
  scene_tag = "standup";
  function_tag = "clarify";
  state = new;
  success_streak = pos 0;
  next_due_at = 100;
  ease_factor = 0;
  real_use_count = pos 0;
  total_uses = pos 0;
  last_used_at = none;
  is_favorite = false;
  pinned_at = none;
  source_session_id = none;
  deleted_at = none;
  created_at = 100;
  updated_at = 100;
}

abbrev pub two_learners : MemoryStore
two_learners = record {
  schedule = default_schedule;
  blocks = ("b1", ask_again) ∷ ("b2", record ask_again { id = "b2"; user_id = "ben" }) ∷ [];
  uses = [];
  feedback = [];
  real_uses = [];
  edits = [];
}

abbrev two_hits : List Hit
two_hits =
    record { block_id = "b1"; turn_id = "t1"; detected_at_ms = pos 5 }
    ∷ record { block_id = "b2"; turn_id = "t1"; detected_at_ms = pos 6 }
    ∷ []

abbrev not_useful : Feedback
not_useful = record {
  id = "f1";
  user_id = "anna";
  block_id = "b1";
  reason = "not_useful";
  deleted_at = none;
  created_at = 7;
  already_recorded = false;
}

abbrev annas_calls : List UserCall
annas_calls = hits "s1" "t1" two_hits ∷ deletes "b2" 8 ∷ restores_all ∷ []

user_calls-KeepsOthers_example :
    KeepsOthers "anna" two_learners.blocks (user_calls "anna" annas_calls two_learners).blocks
user_calls-KeepsOthers_example = user_calls-KeepsOthers "anna" annas_calls two_learners

record_hits-replay_example :
    let (_, t) = record_hits "anna" "s1" "t1" two_hits two_learners in
    SameProgress t (record_hits "anna" "s1" "t1" two_hits t).1
record_hits-replay_example = record_hits-replay "anna" "s1" "t1" two_hits two_learners

apply_judge-due_later_example : 200 < (apply_judge default_schedule ask_again true 200).next_due_at
apply_judge-due_later_example = apply_judge-due_later default_schedule ask_again true 200

dedupe_hits-latest_example :
    (kept : Dict Hit) × (dedupe_hits "t1" two_hits ≡ values kept)
    × HasKeysOnce kept
    × (lookup "" kept ≡ none)
    × ((block_id : String)
        → str_eq block_id "" ≡ false
        → IsKept (lookup block_id kept) (reports_of "t1" block_id two_hits))
dedupe_hits-latest_example = dedupe_hits-latest "t1" two_hits

abbrev seen : List RecentHit
seen =
    record { block_id = "b1"; turn_id = "t2"; used_at_ms = pos 9; intent_zh = ""; chunk_en = "" }
    ∷ record { block_id = "b2"; turn_id = "t1"; used_at_ms = pos 8; intent_zh = ""; chunk_en = "" }
    ∷ []

apply_lookback-first_example :
    apply_lookback 1 seen
    ≡ keep_if (λ hit. is_among hit.turn_id (take 1 (distinct_turns [] seen))) seen
apply_lookback-first_example = apply_lookback-first 1 seen
