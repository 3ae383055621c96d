-- ===== src/Examples/Service.antt =====
-- internal/session/service.go: the session service at concrete inputs.
use Prim.Native.String.{◌++◌ as str_append}
use fluentwork_backend.Base.{
  ℕ, zero, suc, ◌≤◌, String, ◌≡◌, refl, true, false, none, some, List, [], ◌∷◌, arith, pos,
  trim_space, lookup, insert_sorted, sort_by, add_time, ok,
}
use fluentwork_backend.Session.Types.{Session, created, active, ended, Utterance}
use fluentwork_backend.Session.Store.{get_session, list_utterances, create_session_with_ticket}
use fluentwork_backend.Session.Service.{
  Service, ServiceState, CreateRequest, CreateResponse, EndRequest, EndUtteranceItem,
  RescueEventItem, create, create_session_for, end, response_of, normalize_each, utterance_problem,
  normalize_end_utterances, normalize_end_rescue_events, continuation_context, continue_from,
  continuation_utterance, tail_of, continuation_limit, normalize_optional_material_id,
  normalize_scene_type, normalize_session_length, has_user_speech,
}
use fluentwork_backend.Session.Service.Transcripts.{
  IsTranscript, IsItem, normalize_end_utterances-IsTranscript, normalize_end_utterances_accepts,
}
use fluentwork_backend.Session.Service.Reports.{
  AreReported, normalize_end_rescue_events-AreReported,
}
use fluentwork_backend.Session.Service.Access.{Opens, create-Opens}
use fluentwork_backend.Session.Service.Continuation.{IsTail, continuation_context-IsTail}
use fluentwork_backend.Session.Service.Replays.{SameRecords, Repeats, end-replay}
use fluentwork_backend.Session.Service.Quiet.{closed, ClosesQuietly, end-ClosesQuietly}

-- Ids "", "x", "xx", ... by the number of the call.
abbrev tally : ℕ → String
tally zero = ""
tally (suc n) = str_append "x" (tally n)

abbrev service : Service
service = record {
  session_ticket_ttl = pos 60;
  voice_gateway_wss_url = "wss://voice";
  mini_session_turn_limit = pos 5;
  new_id = tally;
  hash_ticket = λ raw. raw;
  materials = none;
  eval = true;
}

abbrev talk : Session
talk = record {
  id = "s1";
  user_id = "anna";
  material_id = none;
  scene_type = "demo";
  session_length = "standard";
  status = active;
  duration_sec = pos 0;
  review_json = "";
  created_at = 10;
  updated_at = 10;
  deleted_at = none;
}

abbrev hello : Utterance
hello = record {
  id = "u1";
  session_id = "s2";
  seq = pos 1;
  speaker = "user";
  text = "hello";
  asr_confidence = none;
  audio_url = none;
  llm_eval_json = none;
  created_at = 9;
  interrupted = false;
}

abbrev before : ServiceState
before = record {
  store = record {
    sessions =
        ("s1", talk)
        ∷ ("s2", record talk { id = "s2"; status = ended; duration_sec = pos 40 })
        ∷ ("s3", record talk { id = "s3"; user_id = "ben" })
        ∷ [];
    tickets = [];
    utterances = ("s2", hello ∷ []) ∷ [];
    jobs = [];
    cost_logs = [];
    rescue_events = [];
  };
  ids = 1;
}

abbrev greeting : EndUtteranceItem
greeting = record { seq = pos 1; speaker = "ai"; text = " Hi there. "; interrupted = false }

abbrev bye : EndRequest
bye = record {
  session_id = " s1 ";
  duration_sec = pos 30;
  reason = "";
  utterances = greeting ∷ [];
  rescue_events = [];
  voice_usage = none;
}

abbrev greeted : List Utterance
greeted =
    record {
      id = "x";
      session_id = "s1";
      seq = pos 1;
      speaker = "ai";
      text = "Hi there.";
      asr_confidence = none;
      audio_url = none;
      llm_eval_json = none;
      created_at = 50;
      interrupted = false;
    }
    ∷ []

end-ClosesQuietly_example :
    let (answer, t) = end service bye 50 before in
    (answer ≡ ok (response_of (closed talk ended (pos 30) 50) greeted false true))
    × ClosesQuietly (trim_space " s1 ") (closed talk ended (pos 30) 50) greeted before.store t.store
unfolding trim_space
end-ClosesQuietly_example =
    end-ClosesQuietly service bye 50 before talk greeted (unfold trim_space in refl)
      (unfold trim_space lookup in refl) refl
      (unfold normalize_end_utterances normalize_each utterance_problem trim_space in refl)
      (unfold has_user_speech trim_space in refl)

end-replay_example :
    SameRecords before.store (end service (record bye { session_id = "s2" }) 50 before).1.store
    × Repeats
        (record talk { id = "s2"; status = ended; duration_sec = pos 40 })
        (end service (record bye { session_id = "s2" }) 50 before).0
end-replay_example =
    end-replay service (record bye { session_id = "s2" }) 50 before
      (record talk { id = "s2"; status = ended; duration_sec = pos 40 })
      (unfold trim_space lookup in refl) refl (unfold trim_space in refl)

abbrev asked : CreateRequest
asked = record { material_id = none; scene_type = ""; session_length = "mini" }

abbrev granted : CreateResponse
granted = record {
  session_id = "x";
  wss_url = "wss://voice";
  ticket = "k7";
  ticket_expires_at = 160;
  scene_type = "demo";
  status = created;
}

create-Opens_example :
    Opens service "anna" granted (create service "anna" asked 100 (some "k7") before).1
create-Opens_example =
    create-Opens service "anna" asked 100 "k7" before granted (unfold trim_space in refl) refl (
      unfold create create_session_for create_session_with_ticket normalize_optional_material_id
        normalize_scene_type normalize_session_length trim_space lookup add_time in
      refl)

continuation_context-IsTail_example :
    (current : Session) × (previous : Session) × (lookup (trim_space "s1") before.store.sessions
      ≡ some current)
    × (lookup (trim_space "s2") before.store.sessions ≡ some previous)
    × IsTail current previous (trim_space "s2") before.store (continuation_utterance hello ∷ [])
continuation_context-IsTail_example =
    continuation_context-IsTail "s1" "s2" (pos 3) before.store (continuation_utterance hello ∷ []) (
      unfold continuation_context get_session continue_from list_utterances tail_of
        continuation_limit trim_space lookup sort_by insert_sorted in
      refl)

normalize_end_utterances-IsTranscript_example :
    IsTranscript "s1" [] (greeting ∷ []) greeted × (1 ≤ 500)
normalize_end_utterances-IsTranscript_example =
    normalize_end_utterances-IsTranscript tally 1 "s1" (greeting ∷ []) 50 greeted
      (unfold normalize_end_utterances normalize_each utterance_problem trim_space in refl)

abbrev stuck : RescueEventItem
stuck = record {
  seq = pos 2;
  turn_id = "t1";
  level = pos 3;
  path = "";
  ladder = "I think the main risk is";
  user_opened = false;
  anchor = "made up";
}

normalize_end_rescue_events-AreReported_example :
    AreReported talk [] (normalize_end_rescue_events tally 1 talk (stuck ∷ stuck ∷ []) 50)
normalize_end_rescue_events-AreReported_example =
    normalize_end_rescue_events-AreReported tally 1 talk (stuck ∷ stuck ∷ []) 50

greeting-IsItem : IsItem greeting
unfolding trim_space
greeting-IsItem = record {
  first = omega arith;
  last = omega arith;
  speaker = refl;
  spoken = refl;
  bounded = omega arith;
}

normalize_end_utterances_accepts_example :
    (rows : List Utterance) × (normalize_end_utterances tally 1 "s1" (greeting ∷ []) 50 ≡ ok rows)
    × IsTranscript "s1" [] (greeting ∷ []) rows
normalize_end_utterances_accepts_example =
    normalize_end_utterances_accepts tally 1 "s1" (greeting ∷ []) 50 (omega arith)
      (greeting-IsItem, tt) (refl, tt)
