-- ===== src/Voice/Turn/States.antt =====
-- internal/voicegateway/turn.go: what the order of a turn's events can lead to.
use fluentwork_backend.Voice.Turn.{
  TurnState, finalizing, speaking, closed, TurnEvent, user_speech_start, user_speech_end,
  turn_abort, ai_first_output, ai_end, Turn, new_turn, turn_transitions, advance, apply,
  apply_start, apply_speech_end, note_first_output, note_ai_end,
}
use fluentwork_backend.Base.{
  ℕ, suc, ◌+◌, String, ◌≡◌, refl, ◌↔◌, Bool, true, false, Option, none, some, List, [], ◌∷◌, arith,
  if◌then◌else◌, length, any,
}

-- A call that the gateway's handler makes on a turn.
pub data Call : Type 0 where
  starts aborts outputs ai_ends : Call
  ends : String → Call

unfoldable pub call : Call → Turn → Turn
call starts t = (apply_start t).1
call aborts t = (apply turn_abort t).1
call outputs t = (note_first_output t).1
call ai_ends t = (note_ai_end t).1
call (ends client_turn_id) t = (apply_speech_end client_turn_id t).1

unfoldable pub calls : List Call → Turn → Turn
calls [] t = t
calls (c ∷ cs) t = calls cs (call c t)

-- How many events a turn has refused.
abbrev pub refused : Turn → ℕ
refused t = let r = t.rejected in r.starts + r.ends + r.aborts + r.outputs + r.ai_ends

-- `Turn.Apply` over a sequence of events: how many it accepts, and the turn after them.
unfoldable pub apply_all : List TurnEvent → Turn → ℕ × Turn
apply_all [] t = (0, t)
apply_all (ev ∷ evs) t =
    let (accepted, t') = apply ev t in
    let (n, t'') = apply_all evs t' in (if accepted then suc n else n, t'')

refused-advance :
    (next : Option TurnState) (ev : TurnEvent) (t : Turn)
    → refused (advance next ev t).1 ≡ (if (advance next ev t).0 then refused t else suc (refused t))
unfolding advance
refused-advance none user_speech_start t = omega arith
refused-advance none user_speech_end t = omega arith
refused-advance none turn_abort t = omega arith
refused-advance none ai_first_output t = omega arith
refused-advance none ai_end t = omega arith
refused-advance (some next) ev t = refl

refused-apply :
    (ev : TurnEvent) (t : Turn)
    → refused (apply ev t).1 ≡ (if (apply ev t).0 then refused t else suc (refused t))
refused-apply ev t = unfold apply in refused-advance (turn_transitions t.state ev) ev t

-- Every event is either accepted or counted as refused, in any order of events and from any turn:
-- the accepted events and the growth of the count make up all events.
pub apply_all-counts :
    (evs : List TurnEvent) (t : Turn)
    → let (accepted, t') = apply_all evs t in accepted + refused t' ≡ length evs + refused t
unfolding apply_all
apply_all-counts [] t = refl
apply_all-counts (ev ∷ evs) t =
    ground (arith, apply_all-counts evs (apply ev t).1, refused-apply ev t)

abbrev is_end : Call → Bool
is_end (ends _) = true
is_end _ = false

-- Whether the floor has passed to the AI.
abbrev pub with_ai : TurnState → Bool
with_ai finalizing = true
with_ai speaking = true
with_ai _ = false

call-with_ai :
    (c : Call) (t : Turn)
    → is_end c ≡ false
    → with_ai t.state ≡ false
    → with_ai (call c t).state ≡ false
unfolding call apply_start apply_speech_end apply note_first_output note_ai_end
call-with_ai starts t e h = ground arith
call-with_ai aborts t e h = ground arith
call-with_ai outputs t e h = ground arith
call-with_ai ai_ends t e h = ground arith
call-with_ai (ends s) t e h = cc

calls-with_ai :
    (cs : List Call) (t : Turn)
    → any is_end cs ≡ false
    → with_ai t.state ≡ false
    → with_ai (calls cs t).state ≡ false
unfolding calls
calls-with_ai [] t e h = h
calls-with_ai (c ∷ cs) t e h =
    calls-with_ai cs (call c t) (ground arith) (call-with_ai c t (ground arith) h)

-- However the frames are ordered, a new turn is never taken to be answered or spoken in before some
-- utterance was ended: without an end of speech, no AI end reports that the AI spoke.
pub calls-unspoken_without_end :
    (session : String) (cs : List Call)
    → any is_end cs ≡ false
    → (with_ai (calls cs (new_turn session)).state ≡ false)
      × ((note_ai_end (calls cs (new_turn session))).0 ≡ false)
calls-unspoken_without_end session cs e = (quiet, unspoken (calls cs (new_turn session)) quiet)
  where
    quiet : with_ai (calls cs (new_turn session)).state ≡ false
    quiet = calls-with_ai cs (new_turn session) e (unfold new_turn in refl)

    unspoken : (t : Turn) → with_ai t.state ≡ false → (note_ai_end t).0 ≡ false
    unspoken t h = unfold note_ai_end apply in ground arith

-- An end of the AI's turn reports that the AI spoke exactly when the turn was speaking; that report
-- closes the turn, and the second end marker of the same turn reports nothing and changes nothing.
pub note_ai_end-once :
    (t : Turn)
    → (((note_ai_end t).0 ≡ true) ↔ (t.state ≡ speaking))
      × ((note_ai_end t).0 ≡ true
          → ((note_ai_end t).1.state ≡ closed)
            × (note_ai_end (note_ai_end t).1 ≡ (false, (note_ai_end t).1)))
unfolding note_ai_end apply
note_ai_end-once t = ground arith

-- Once an output of the AI is accepted, the turn is speaking, and any later output of the same
-- utterance is accepted without a change or a count.
pub note_first_output_idem :
    (t : Turn)
    → (note_first_output t).0 ≡ true
    → ((note_first_output t).1.state ≡ speaking)
      × (note_first_output (note_first_output t).1 ≡ (true, (note_first_output t).1))
unfolding note_first_output apply
note_first_output_idem t h = ground arith

-- Whatever has happened to a turn, a start of speech, its end, an output of the AI and the AI's end
-- are all accepted, are reported as spoken, close the turn, and add no refusal.
pub calls-full_round :
    (t : Turn) (client_turn_id : String)
    → let u = calls (starts ∷ ends client_turn_id ∷ outputs ∷ []) t in
      ((note_ai_end u).0 ≡ true)
      × ((note_ai_end u).1.state ≡ closed)
      × ((note_ai_end u).1.rejected ≡ t.rejected)
unfolding calls call apply_start apply_speech_end apply note_first_output note_ai_end
calls-full_round t client_turn_id = ground arith
