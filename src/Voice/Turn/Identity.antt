-- ===== src/Voice/Turn/Identity.antt =====
-- internal/voicegateway/turn.go: the name of a turn.
use fluentwork_backend.Voice.Turn.{
  Turn, new_turn, apply, turn_abort, apply_start, apply_speech_end, note_first_output, note_ai_end,
  resolve_id,
}
use fluentwork_backend.Voice.Turn.States.{Call, starts, aborts, outputs, ai_ends, ends, call, calls}
use fluentwork_backend.Base.{
  String, ◌≡◌, false, List, [], ◌∷◌, arith, str_eq, trim_space, trim_space_idem,
}

-- The turn has a name that is not blank.
abbrev pub IsNamed : Turn → Type 0
IsNamed t = str_eq (trim_space t.id) "" ≡ false

apply_speech_end-id :
    (client_turn_id : String) (t : Turn)
    → ((apply_speech_end client_turn_id t).1.id ≡ resolve_id client_turn_id t)
      × ((apply_speech_end client_turn_id t).1.session ≡ t.session)
unfolding apply_speech_end apply
apply_speech_end-id client_turn_id t = ground arith

-- The end of an utterance names the turn in every state, also where the event is refused: by the
-- client's id if that is not blank, else by the name it has, else by the session's id.
pub apply_speech_end-names :
    (client_turn_id : String) (t : Turn)
    → trim_space t.session ≡ t.session
    → str_eq t.session "" ≡ false
    → IsNamed (apply_speech_end client_turn_id t).1
      × (str_eq (trim_space client_turn_id) "" ≡ false
          → (apply_speech_end client_turn_id t).1.id ≡ trim_space client_turn_id)
apply_speech_end-names client_turn_id t trimmed nonblank =
    rw (apply_speech_end-id client_turn_id t).0
      (unfold resolve_id in ground (arith, trim_space_idem client_turn_id))

apply_keeps_id :
    (t : Turn)
    → ((apply_start t).1.id ≡ t.id)
      × ((apply turn_abort t).1.id ≡ t.id)
      × ((note_first_output t).1.id ≡ t.id)
      × ((note_ai_end t).1.id ≡ t.id)
unfolding apply_start apply note_first_output note_ai_end
apply_keeps_id t = (ground arith, ground arith, ground arith, ground arith)

apply_keeps_session :
    (t : Turn)
    → ((apply_start t).1.session ≡ t.session)
      × ((apply turn_abort t).1.session ≡ t.session)
      × ((note_first_output t).1.session ≡ t.session)
      × ((note_ai_end t).1.session ≡ t.session)
unfolding apply_start apply note_first_output note_ai_end
apply_keeps_session t = (ground arith, ground arith, ground arith, ground arith)

-- The session's id is trimmed and not blank.
abbrev HasSession : Turn → Type 0
HasSession t = (trim_space t.session ≡ t.session) × (str_eq t.session "" ≡ false)

call-HasSession : (c : Call) (t : Turn) → HasSession t → HasSession (call c t)
unfolding call
call-HasSession starts t h = rw (apply_keeps_session t).0 h
call-HasSession aborts t h = rw (apply_keeps_session t).1 h
call-HasSession outputs t h = rw (apply_keeps_session t).2 h
call-HasSession ai_ends t h = rw (apply_keeps_session t).3 h
call-HasSession (ends s) t h = rw (apply_speech_end-id s t).1 h

call-IsNamed : (c : Call) (t : Turn) → HasSession t → IsNamed t → IsNamed (call c t)
unfolding call
call-IsNamed starts t s h = rw (apply_keeps_id t).0 h
call-IsNamed aborts t s h = rw (apply_keeps_id t).1 h
call-IsNamed outputs t s h = rw (apply_keeps_id t).2 h
call-IsNamed ai_ends t s h = rw (apply_keeps_id t).3 h
call-IsNamed (ends id) t s h = (apply_speech_end-names id t s.0 s.1).0

calls-HasSession : (cs : List Call) (t : Turn) → HasSession t → HasSession (calls cs t)
unfolding calls
calls-HasSession [] t s = s
calls-HasSession (c ∷ cs) t s = calls-HasSession cs (call c t) (call-HasSession c t s)

calls-IsNamed : (cs : List Call) (t : Turn) → HasSession t → IsNamed t → IsNamed (calls cs t)
unfolding calls
calls-IsNamed [] t s h = h
calls-IsNamed (c ∷ cs) t s h =
    calls-IsNamed cs (call c t) (call-HasSession c t s) (call-IsNamed c t s h)

-- In a session whose id is not blank, every turn in which an utterance was ended has a name from
-- then on, whatever calls came before the end and come after it, and whatever id the client sent.
pub calls-IsNamed_after_end :
    (session client_turn_id : String) (before after : List Call)
    → str_eq (trim_space session) "" ≡ false
    → IsNamed (calls after (call (ends client_turn_id) (calls before (new_turn session))))
calls-IsNamed_after_end session client_turn_id before after h =
    calls-IsNamed after _ (call-HasSession (ends client_turn_id) _ known) named
  where
    known : HasSession (calls before (new_turn session))
    known =
        calls-HasSession before (new_turn session) (unfold new_turn in (trim_space_idem session, h))

    named : IsNamed (call (ends client_turn_id) (calls before (new_turn session)))
    named = unfold call in (apply_speech_end-names client_turn_id _ known.0 known.1).0
