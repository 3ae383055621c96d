-- ===== src/Session/Service/Transcript.antt =====
-- internal/session/service.go: the transcript and the rescue events that a session ends with.
use fluentwork_backend.Session.Types.{Session, Utterance, RescueEvent}
use fluentwork_backend.Session.Service.Types.{
  EndUtteranceItem, RescueEventItem, ServiceError, invalid_argument,
}
use fluentwork_backend.Base.{
  ℕ, suc, ◌*◌, String, Bool, false, not, ◌&&◌, ◌||◌, Option, none, some, List, [], ◌∷◌, str_eq, ltb,
  leb, if◌then◌else◌, is_some, ℤ, pos, ltb_ℤ, length, any, trim_space, rune_count, take_runes,
  Result, ok, err, eq_ℤ, utf8_length, rune_count,
}

-- `capRunes`
unfoldable pub cap_runes : String → ℕ → String
cap_runes s n = if leb (rune_count s) n then s else take_runes n s

-- `hasUserSpeech`
unfoldable pub has_user_speech : List Utterance → Bool
has_user_speech [] = false
has_user_speech (u ∷ rest) =
    str_eq u.speaker "user" && not (str_eq (trim_space u.text) "") || has_user_speech rest

abbrev pub max_utterances : ℕ
max_utterances = 500

abbrev pub has_speaker : String → Bool
has_speaker speaker = str_eq speaker "user" || str_eq speaker "ai"

-- The guards of the loop of `normalizeEndUtterances`, in order: what is wrong with an item, if the
-- given numbers were seen before it.
unfoldable pub utterance_problem : List ℤ → EndUtteranceItem → Option String
utterance_problem seen item =
    let text = trim_space item.text in
    if ltb_ℤ item.seq (pos 1) || ltb_ℤ (pos max_utterances) item.seq
    then some "utterance seq is out of range"
    else if any (eq_ℤ item.seq) seen
    then some "utterance seq must be unique"
    else if not (has_speaker (trim_space item.speaker))
    then some "utterance speaker must be user or ai"
    else if str_eq text ""
    then some "utterance text is required"
    else if ltb (32 * 1024) (utf8_length text)
    then some "utterance text is too long"
    else none

-- The row of an item.
abbrev pub utterance_of : String → ℕ → String → EndUtteranceItem → Utterance
utterance_of session_id now id item = record {
  id = id;
  session_id = session_id;
  seq = item.seq;
  speaker = trim_space item.speaker;
  text = trim_space item.text;
  asr_confidence = none;
  audio_url = none;
  llm_eval_json = none;
  created_at = now;
  interrupted = item.interrupted;
}

-- The loop of `normalizeEndUtterances`, from the n-th id.
unfoldable pub normalize_each :
    (ℕ → String)
    → String
    → ℕ
    → ℕ
    → List ℤ
    → List EndUtteranceItem
    → Result ServiceError (List Utterance)
normalize_each new_id session_id now n seen [] = ok []
normalize_each new_id session_id now n seen (item ∷ items) =
    let rest = normalize_each new_id session_id now (suc n) (item.seq ∷ seen) items in
    elim (utterance_problem seen item) [
      | some msg ↦ err (invalid_argument msg)
      | none ↦ elim rest [
        | err e ↦ err e
        | ok rows ↦ ok (utterance_of session_id now (new_id n) item ∷ rows)
      ]
    ]

-- `normalizeEndUtterances`
unfoldable pub normalize_end_utterances :
    (ℕ → String) → ℕ → String → List EndUtteranceItem → ℕ → Result ServiceError (List Utterance)
normalize_end_utterances new_id n session_id items now =
    if ltb max_utterances (length items)
    then err (invalid_argument "too many utterances")
    else normalize_each new_id session_id now n [] items

abbrev pub max_rescue_events : ℕ
max_rescue_events = 200

-- The `switch` on the trimmed path: the path of the row, or `none` where the event is dropped.
unfoldable pub rescue_path : String → Option String
rescue_path path =
    if str_eq path "incomplete" || str_eq path "silent"
    then some path
    else if str_eq path ""
    then some "silent"
    else none

-- The row of an event with this path.
abbrev pub rescue_event_of : Session → ℕ → String → RescueEventItem → String → RescueEvent
rescue_event_of session now id item path = record {
  id = id;
  session_id = session.id;
  user_id = session.user_id;
  seq = item.seq;
  turn_id = cap_runes (trim_space item.turn_id) 64;
  level = item.level;
  path = path;
  ladder = cap_runes (trim_space item.ladder) 512;
  user_opened = item.user_opened;
  anchor = cap_runes (if item.user_opened then trim_space item.anchor else "") 512;
  created_at = now;
}

-- The body of the loop of `normalizeEndRescueEvents`: the numbers seen, and the path of the row if
-- the item is kept.
unfoldable pub rescue_step : List ℤ → RescueEventItem → List ℤ × Option String
unfolding rescue_path
rescue_step seen item =
    if ltb_ℤ item.seq (pos 1) || ltb_ℤ (pos max_rescue_events) item.seq
    then (seen, none)
    else if any (eq_ℤ item.seq) seen
    then (seen, none)
    else if ltb_ℤ item.level (pos 1) || ltb_ℤ (pos 3) item.level
    then (item.seq ∷ seen, none)
    else (item.seq ∷ seen, rescue_path (trim_space item.path))

-- The loop of `normalizeEndRescueEvents`, from the n-th id.
unfoldable pub rescue_each :
    (ℕ → String) → Session → ℕ → ℕ → List ℤ → List RescueEventItem → List RescueEvent
unfolding rescue_step
rescue_each new_id session now n seen [] = []
rescue_each new_id session now n seen (item ∷ items) =
    let (seen', kept) = rescue_step seen item in
    let rest = rescue_each new_id session now (if is_some kept then suc n else n) seen' items in
    elim kept [ none ↦ rest | some path ↦ rescue_event_of session now (new_id n) item path ∷ rest ]

-- `normalizeEndRescueEvents`
unfoldable pub normalize_end_rescue_events :
    (ℕ → String) → ℕ → Session → List RescueEventItem → ℕ → List RescueEvent
normalize_end_rescue_events new_id n session items now =
    if ltb max_rescue_events (length items) then [] else rescue_each new_id session now n [] items
