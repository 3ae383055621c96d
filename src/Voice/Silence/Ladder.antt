-- ===== src/Voice/Silence/Ladder.antt =====
-- internal/voicegateway/silence_detector.go: which rungs a silence window fires, and when.
use fluentwork_backend.Voice.Silence.{
  RescueThresholds, SilenceDetector, new_silence_detector_with_thresholds, on_ai_speech_end,
  on_user_speech_start, on_user_speech_end, check_silence, next_rung, fire, elapsed, reset,
  request_next,
}
use fluentwork_backend.Voice.Silence.Thresholds.{IsLadder, with_defaults-IsLadder}
use fluentwork_backend.Voice.Seq.{count_from}
use fluentwork_backend.Base.{
  ℕ, zero, suc, ◌+◌, ◌≤◌, ◌<◌, ◌≡◌, refl, ◌∙◌, ◌⊎◌, inl, inr, Bool, true, false, not, ◌&&◌, ◌||◌,
  Option, none, some, List, [], ◌∷◌, arith, ltb, leb, ◌==◌, if◌then◌else◌, Bool-cases, ℤ, pos_part,
  leb_ℤ, length,
}

-- The threshold of a rung.
abbrev pub threshold : ℕ → RescueThresholds → ℤ
threshold rung t = if leb rung 1 then t.level1 else if rung == 2 then t.level2 else t.level3

-- What holds between any two calls.
pub record IsWellFormed (d : SilenceDetector) : Type 0 where
  pub ladder : IsLadder d.thresholds
  pub capped : d.rescue_level ≤ 3
  pub closed_unfired : d.window_start ≡ 0 → d.rescue_level ≡ 0

-- A call on the detector, with its time.
pub data Call : Type 0 where
  ai_speech_end check request : ℕ → Call
  user_speech_start reset_detector : Call
  user_speech_end : Bool → Call

unfoldable pub call : Call → SilenceDetector → SilenceDetector
unfolding on_ai_speech_end on_user_speech_start on_user_speech_end reset
call (ai_speech_end now) d = on_ai_speech_end now d
call (check now) d = (check_silence now d).1
call (request now) d = (request_next now d).1
call user_speech_start d = on_user_speech_start d
call reset_detector d = reset d
call (user_speech_end complete) d = on_user_speech_end complete d

unfoldable pub calls : List Call → SilenceDetector → SilenceDetector
calls [] d = d
calls (c ∷ cs) d = calls cs (call c d)

next_rung_lem :
    (r : ℕ) (passed : ℤ) (d : SilenceDetector)
    → IsWellFormed d
    → d.rescue_level ≡ r
    → next_rung passed d
      ≡ (if ltb r 3 && leb_ℤ (threshold (suc r) d.thresholds) passed then some (suc r) else none)
unfolding next_rung
next_rung_lem zero passed d h e = ground arith
next_rung_lem (suc zero) passed d h e = ground arith
next_rung_lem (suc (suc zero)) passed d h e = ground arith
next_rung_lem (suc (suc (suc zero))) passed d h e = ground arith
next_rung_lem (suc (suc (suc (suc r)))) passed d h e = absurd (omega (arith, h.capped))

call-IsWellFormed : (c : Call) (d : SilenceDetector) → IsWellFormed d → IsWellFormed (call c d)
unfolding call check_silence request_next
call-IsWellFormed (ai_speech_end now) d h = ground arith
call-IsWellFormed (check now) d h =
    ground (arith, next_rung_lem d.rescue_level (elapsed now d) d h refl)
call-IsWellFormed (request now) d h = ground arith
call-IsWellFormed user_speech_start d h = ground arith
call-IsWellFormed reset_detector d h = ground arith
call-IsWellFormed (user_speech_end complete) d h = ground arith

calls_keep : (cs : List Call) (d : SilenceDetector) → IsWellFormed d → IsWellFormed (calls cs d)
unfolding calls
calls_keep [] d h = h
calls_keep (c ∷ cs) d h = calls_keep cs (call c d) (call-IsWellFormed c d h)

-- After any calls on a new detector, whatever thresholds it was given, the rungs climb, no rung
-- above the third has fired, and none has fired while no window is open.
pub calls-IsWellFormed :
    (t : RescueThresholds) (cs : List Call)
    → IsWellFormed (calls cs (new_silence_detector_with_thresholds t))
calls-IsWellFormed t cs = calls_keep cs _ (
    unfold new_silence_detector_with_thresholds in
    record {
      ladder = (with_defaults-IsLadder t).0;
      capped = omega arith;
      closed_unfired = λ _. refl;
    })

-- A poll, by whether a rung is due.
abbrev fire_if : Bool → ℕ → SilenceDetector → Option ℕ × SilenceDetector
fire_if due now d =
    if d.window_start == 0 || d.user_speaking
    then (none, d)
    else if ltb now d.auto_hold_until
    then (none, d)
    else if due
    then (some (suc d.rescue_level), record d { rescue_level = suc d.rescue_level })
    else (none, d)

abbrev pub is_due : ℕ → SilenceDetector → Bool
is_due now d =
    ltb d.rescue_level 3 && leb_ℤ (threshold (suc d.rescue_level) d.thresholds) (elapsed now d)

fire_due :
    (due : Bool) (d : SilenceDetector)
    → fire (if due then some (suc d.rescue_level) else none) d ≡ (
        if due
        then (some (suc d.rescue_level), record d { rescue_level = suc d.rescue_level })
        else (none, d))
unfolding fire
fire_due true d = refl
fire_due false d = refl

check_silence_at :
    (now : ℕ) (d : SilenceDetector)
    → IsWellFormed d
    → check_silence now d ≡ fire_if (is_due now d) now d
unfolding check_silence
check_silence_at now d h =
    rw (next_rung_lem d.rescue_level (elapsed now d) d h refl) (rw (fire_due (is_due now d) d))

fire_if-armed :
    (now : ℕ) (d : SilenceDetector) (due : Bool)
    → fire_if due now d ≡ (
        if ltb 0 d.window_start && not d.user_speaking && leb d.auto_hold_until now && due
        then (some (suc d.rescue_level), record d { rescue_level = suc d.rescue_level })
        else (none, d))
fire_if-armed now d true = ground arith
fire_if-armed now d false = ground arith

-- The automatic ladder may fire: a window is open, the user is silent, no request holds it, a rung
-- is left, and the threshold of that rung has passed.
abbrev pub may_fire : ℕ → SilenceDetector → Bool
may_fire now d =
    ltb 0 d.window_start && not d.user_speaking && leb d.auto_hold_until now && is_due now d

-- On a well-formed detector a poll fires exactly when the ladder may fire. It then fires the rung
-- after the last one, however late the poll is, so no rung is skipped, and records it and nothing
-- else; a poll that fires nothing changes nothing.
pub check_silence-next_rung :
    (now : ℕ) (d : SilenceDetector)
    → IsWellFormed d
    → check_silence now d ≡ (
        if may_fire now d
        then (some (suc d.rescue_level), record d { rescue_level = suc d.rescue_level })
        else (none, d))
check_silence-next_rung now d h = check_silence_at now d h ∙ fire_if-armed now d (is_due now d)

-- The rungs that polls at the given times fire, in order.
unfoldable pub polls : List ℕ → SilenceDetector → List ℕ
polls [] d = []
polls (now ∷ times) d =
    let (fired, d') = check_silence now d in
    let rest = polls times d' in elim fired [ none ↦ rest | some level ↦ level ∷ rest ]

fire-IsWellFormed :
    (now : ℕ) (d : SilenceDetector) → IsWellFormed d → IsWellFormed (check_silence now d).1
unfolding call
fire-IsWellFormed now d h = call-IsWellFormed (check now) d h

-- On a well-formed detector, with no other call between them, polls at any times fire the rungs that are left one after another, each at most
-- once and none after the third.
pub polls-climb :
    (times : List ℕ) (d : SilenceDetector)
    → IsWellFormed d
    → (polls times d ≡ count_from d.rescue_level (length (polls times d)))
      × (d.rescue_level + length (polls times d) ≤ 3)
unfolding polls
polls-climb [] d h = (refl, omega (arith, h.capped))
polls-climb (now ∷ times) d h = elim (Bool-cases (may_fire now d)) [
  | inl e ↦ ground (
    arith,
    check_silence-next_rung now d h,
    fire-IsWellFormed now d h,
    polls-climb times (check_silence now d).1,
  )
  | inr e ↦ ground (arith, check_silence-next_rung now d h, polls-climb times d)
]

-- On a well-formed detector whose user is silent, a request in an open window yields the rung after the last one, or the third again; no poll fires
-- until one first-rung spacing has passed since the request.
pub request_next-holds :
    (now later : ℕ) (d : SilenceDetector)
    → IsWellFormed d
    → 0 < d.window_start
    → d.user_speaking ≡ false
    → later < now + pos_part d.thresholds.level1
    → ((request_next now d).0 ≡ some (if ltb d.rescue_level 3 then suc d.rescue_level else 3))
      × (check_silence later (request_next now d).1 ≡ (none, (request_next now d).1))
unfolding check_silence request_next
request_next-holds now later d h open_window silent early = ground arith

-- While the user speaks, or while no window is open, neither a poll nor a request yields a rung or
-- changes the detector.
pub suspended_unchanged :
    (now : ℕ) (d : SilenceDetector)
    → (d.window_start ≡ 0) ⊎ (d.user_speaking ≡ true)
    → (check_silence now d ≡ (none, d)) × (request_next now d ≡ (none, d))
unfolding check_silence request_next
suspended_unchanged now d h = ground arith
