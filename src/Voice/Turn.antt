-- ===== src/Voice/Turn.antt =====
-- internal/voicegateway/turn.go: one conversational turn. A method is a function from the turn to
-- its result and the new turn; the mutex makes each of them one step. A nil receiver, for which
-- each method returns its zero value, is left out.
pub mod States
pub mod Identity
use fluentwork_backend.Base.{
  ℕ, ◌+◌, String, Bool, true, false, Option, none, some, str_eq, if◌then◌else◌, trim_space,
}

pub data TurnState : Type 0 where
  idle listening finalizing speaking closed : TurnState

pub data TurnEvent : Type 0 where
  user_speech_start user_speech_end turn_abort ai_first_output ai_end : TurnEvent

-- The table `turnTransitions`; `none` for a pair that it does not list.
unfoldable pub turn_transitions : TurnState → TurnEvent → Option TurnState
turn_transitions idle user_speech_start = some listening
turn_transitions idle user_speech_end = some finalizing
turn_transitions idle _ = none
turn_transitions listening user_speech_end = some finalizing
turn_transitions listening turn_abort = some closed
turn_transitions listening user_speech_start = some listening
turn_transitions listening _ = none
turn_transitions finalizing ai_first_output = some speaking
turn_transitions finalizing ai_end = some closed
turn_transitions finalizing turn_abort = some closed
turn_transitions finalizing user_speech_start = some listening
turn_transitions finalizing _ = none
turn_transitions speaking ai_end = some closed
turn_transitions speaking user_speech_start = some listening
turn_transitions speaking _ = none
turn_transitions closed user_speech_start = some listening
turn_transitions closed _ = none

-- The map `rejected`: how often each event was refused.
pub record Rejected : Type 0 where
  pub starts : ℕ
  pub ends : ℕ
  pub aborts : ℕ
  pub outputs : ℕ
  pub ai_ends : ℕ

-- `t.rejected[ev]++`
unfoldable pub reject : TurnEvent → Rejected → Rejected
reject user_speech_start r = record r { starts = r.starts + 1 }
reject user_speech_end r = record r { ends = r.ends + 1 }
reject turn_abort r = record r { aborts = r.aborts + 1 }
reject ai_first_output r = record r { outputs = r.outputs + 1 }
reject ai_end r = record r { ai_ends = r.ai_ends + 1 }

pub record Turn : Type 0 where
  pub state : TurnState
  pub id : String
  pub session : String
  pub rejected : Rejected

-- `NewTurn`
unfoldable pub new_turn : String → Turn
new_turn session_id = record {
  state = idle;
  id = "";
  session = trim_space session_id;
  rejected = record { starts = 0; ends = 0; aborts = 0; outputs = 0; ai_ends = 0 };
}

-- `next, ok := turnTransitions[t.state][ev]`: the move, or the count of a refusal.
unfoldable pub advance : Option TurnState → TurnEvent → Turn → Bool × Turn
unfolding reject
advance none ev t = (false, record t { rejected = reject ev t.rejected })
advance (some next) ev t = (true, record t { state = next })

-- `Turn.Apply`, and `Turn.ApplyStart`, which applies the start event
unfoldable pub apply : TurnEvent → Turn → Bool × Turn
unfolding advance turn_transitions
apply ev t = advance (turn_transitions t.state ev) ev t

unfoldable pub apply_start : Turn → Bool × Turn
unfolding apply
apply_start t = apply user_speech_start t

-- The name that the end of an utterance gives the turn.
unfoldable pub resolve_id : String → Turn → String
resolve_id client_turn_id t =
    let id = trim_space client_turn_id in
    if str_eq id "" then (if str_eq (trim_space t.id) "" then t.session else t.id) else id

-- `Turn.ApplySpeechEnd`
unfoldable pub apply_speech_end : String → Turn → Bool × Turn
unfolding apply resolve_id
apply_speech_end client_turn_id t =
    let (accepted, t') = apply user_speech_end t in
    (accepted, record t' { id = resolve_id client_turn_id t' })

-- The early return of `NoteFirstOutput`: the turn is speaking already.
unfoldable pub note_first_output_at : TurnState → Turn → Bool × Turn
unfolding apply
note_first_output_at speaking t = (true, t)
note_first_output_at _ t = apply ai_first_output t

-- `Turn.NoteFirstOutput`
unfoldable pub note_first_output : Turn → Bool × Turn
unfolding note_first_output_at
note_first_output t = note_first_output_at t.state t

abbrev is_speaking : TurnState → Bool
is_speaking speaking = true
is_speaking _ = false

-- `Turn.NoteAIEnd`: whether the turn that it closed was one that the AI spoke in.
unfoldable pub note_ai_end_at : TurnState → Turn → Bool × Turn
unfolding apply
note_ai_end_at closed t = (false, t)
note_ai_end_at state t =
    let (accepted, t') = apply ai_end t in (if accepted then is_speaking state else false, t')

unfoldable pub note_ai_end : Turn → Bool × Turn
unfolding note_ai_end_at
note_ai_end t = note_ai_end_at t.state t

-- `turnOutcomeSpoke`
unfoldable pub turn_outcome_spoke : String → Bool
turn_outcome_spoke outcome =
    if str_eq outcome "timeout" then false else if str_eq outcome "error" then false else true
