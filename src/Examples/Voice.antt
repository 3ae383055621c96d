-- ===== src/Examples/Voice.antt =====
-- internal/voicegateway: its turns, its silence ladder and its numbering at concrete inputs.
use fluentwork_backend.Base.{
  ℕ, ◌+◌, ◌-◌, ◌^◌, ◌≤◌, ◌≡◌, refl, ◌≢◌, ◌↔◌, true, false, none, some, List, [], ◌∷◌, ◌++◌, arith,
  pos, length,
}
use fluentwork_backend.Voice.Audio.{
  AudioFramer, encode, decode, audio_frame_layout_for, frame_bytes, bytes_per_ms, flush,
}
use fluentwork_backend.Voice.Audio.Wire.{decode-encode}
use fluentwork_backend.Voice.Audio.Framing.{audio_in, write_all}
use fluentwork_backend.Voice.Audio.Stream.{write_all-flush}
use fluentwork_backend.Voice.Turn.{Turn, speaking, closed, new_turn, note_ai_end}
use fluentwork_backend.Voice.Turn.States.{
  starts, outputs, ai_ends, ends, calls, with_ai, calls-unspoken_without_end, calls-full_round,
}
use fluentwork_backend.Voice.Silence.{
  RescueThresholds, SilenceDetector, new_silence_detector_with_thresholds, check_silence,
  request_next,
}
use fluentwork_backend.Voice.Silence.Thresholds.{IsLadder}
use fluentwork_backend.Voice.Silence.Ladder.{
  IsWellFormed, ai_speech_end, check, request, user_speech_start as starts_speech,
  calls as detector_calls, calls-IsWellFormed, polls, polls-climb, request_next-holds,
}
use fluentwork_backend.Voice.Seq.{next, count_from, next-wraps_to_zero}

-- A turn in which the user has spoken and the AI answers.
abbrev answered : Turn
answered = record {
  state = speaking;
  id = "t1";
  session = "s1";
  rejected = record { starts = 0; ends = 1; aborts = 0; outputs = 0; ai_ends = 0 };
}

calls-full_round_example :
    let u = calls (starts ∷ ends "t2" ∷ outputs ∷ []) answered in
    ((note_ai_end u).0 ≡ true)
    × ((note_ai_end u).1.state ≡ closed)
    × ((note_ai_end u).1.rejected ≡ answered.rejected)
calls-full_round_example = calls-full_round answered "t2"

calls-unspoken_without_end_example :
    (with_ai (calls (starts ∷ outputs ∷ ai_ends ∷ []) (new_turn "s1")).state ≡ false)
    × ((note_ai_end (calls (starts ∷ outputs ∷ ai_ends ∷ []) (new_turn "s1"))).0 ≡ false)
calls-unspoken_without_end_example =
    calls-unspoken_without_end "s1" (starts ∷ outputs ∷ ai_ends ∷ []) refl

-- Rungs at 3, 6 and 9 nanoseconds.
abbrev rungs : RescueThresholds
rungs = record { level1 = pos 3; level2 = pos 6; level3 = pos 9 }

rungs_climb : IsLadder rungs
rungs_climb = record { starts = ground arith; second = ground arith; third = ground arith }

-- A window that opened at 10, with no rung fired.
abbrev waiting : SilenceDetector
waiting = record {
  thresholds = rungs;
  window_start = 10;
  user_speaking = false;
  rescue_level = 0;
  auto_hold_until = 0;
}

waiting-IsWellFormed : IsWellFormed waiting
waiting-IsWellFormed = record {
  ladder = rungs_climb;
  capped = omega arith;
  closed_unfired = λ h. refl;
}

calls-IsWellFormed_example : IsWellFormed (
    detector_calls
      (ai_speech_end 10 ∷ check 14 ∷ request 15 ∷ starts_speech ∷ [])
      (new_silence_detector_with_thresholds rungs))
calls-IsWellFormed_example =
    calls-IsWellFormed rungs (ai_speech_end 10 ∷ check 14 ∷ request 15 ∷ starts_speech ∷ [])

polls-climb_example :
    (polls (11 ∷ 30 ∷ 30 ∷ 40 ∷ []) waiting
      ≡ count_from 0 (length (polls (11 ∷ 30 ∷ 30 ∷ 40 ∷ []) waiting)))
    × (0 + length (polls (11 ∷ 30 ∷ 30 ∷ 40 ∷ []) waiting) ≤ 3)
polls-climb_example = polls-climb (11 ∷ 30 ∷ 30 ∷ 40 ∷ []) waiting waiting-IsWellFormed

request_next-holds_example :
    ((request_next 20 waiting).0 ≡ some 1)
    × (check_silence 22 (request_next 20 waiting).1 ≡ (none, (request_next 20 waiting).1))
request_next-holds_example =
    request_next-holds 20 22 waiting waiting-IsWellFormed (omega arith) refl (omega arith)

next-wraps_to_zero_example :
    (((next (some (record { next = 4294967295 }))).0 ≡ 0) ↔ (4294967295 ≡ 2 ^ 32 - 1))
    × (4294967295 ≢ 2 ^ 32 - 1 → (next (some (record { next = 4294967295 }))).0 ≡ 4294967295 + 1)
next-wraps_to_zero_example = next-wraps_to_zero (record { next = 4294967295 }) (omega arith)

-- One byte to a millisecond, and two milliseconds to a frame.
abbrev slow : AudioFramer
slow = record {
  alloc = some (record { next = 0 });
  turn_ref = some 3;
  format = record { sample_rate = pos 1000; channels = pos 1; bits_per_sample = pos 8 };
  frame_ms = pos 2;
  pending = 7 ∷ [];
}

decode-encode_example :
    (raw : List ℕ) × (encode (record { seq = 258; turn_ref = some 3; payload = 9 ∷ [] }) ≡ some raw)
    × (decode raw (audio_frame_layout_for (some 3))
        ≡ some (record { seq = 258; turn_ref = some 3; payload = 9 ∷ [] }))
decode-encode_example =
    decode-encode (record { seq = 258; turn_ref = some 3; payload = 9 ∷ [] }) (omega arith)
      (omega arith) (omega arith)

write_all-flush_example :
    let (frames, g) = write_all ((8 ∷ 9 ∷ []) ∷ (10 ∷ []) ∷ []) slow in
    (audio_in (some 3) (frames ++ (flush g).0) ≡ 7 ∷ 8 ∷ 9 ∷ 10 ∷ []) × ((flush g).1.pending ≡ [])
write_all-flush_example =
    write_all-flush ((8 ∷ 9 ∷ []) ∷ (10 ∷ []) ∷ []) slow
      (unfold frame_bytes bytes_per_ms in omega arith)
