-- ===== src/Voice/Silence.antt =====
-- internal/voicegateway/silence_detector.go: when a silent user gets the next rung of the rescue
-- ladder. A time is the number of nanoseconds since Go's zero time, so `IsZero` is a test for 0; a
-- duration is an integer of nanoseconds. The mutex makes each method one step.
pub mod Thresholds
pub mod Ladder
use fluentwork_backend.Base.{
  ℕ, ◌+◌, ◌*◌, Bool, true, false, ◌&&◌, ◌||◌, Option, none, some, ltb, ◌==◌, if◌then◌else◌, ℤ, pos,
  sub_ℕ, ltb_ℤ, leb_ℤ, second, add_time,
}

abbrev pub default_rescue_level1_after : ℤ
default_rescue_level1_after = pos (3 * second)

abbrev pub default_rescue_level2_after : ℤ
default_rescue_level2_after = pos (6 * second)

abbrev pub default_rescue_level3_after : ℤ
default_rescue_level3_after = pos (9 * second)

-- voiceproto.RescueLevelComplete
abbrev pub rescue_level_complete : ℕ
rescue_level_complete = 3

pub record RescueThresholds : Type 0 where
  pub level1 : ℤ
  pub level2 : ℤ
  pub level3 : ℤ

-- A rung that is not set takes its default.
unfoldable pub or_default : ℤ → ℤ → ℤ
or_default d default = if leb_ℤ d (pos 0) then default else d

-- A rung is at least as late as the one below it.
unfoldable pub at_least : ℤ → ℤ → ℤ
at_least d lower = if ltb_ℤ d lower then lower else d

-- `withDefaults`
unfoldable pub with_defaults : RescueThresholds → RescueThresholds
unfolding or_default at_least
with_defaults t =
    let level1 = or_default t.level1 default_rescue_level1_after in
    let level2 = at_least (or_default t.level2 default_rescue_level2_after) level1 in
    let level3 = at_least (or_default t.level3 default_rescue_level3_after) level2 in
    record { level1 = level1; level2 = level2; level3 = level3 }

pub record SilenceDetector : Type 0 where
  pub thresholds : RescueThresholds
  pub window_start : ℕ
  pub user_speaking : Bool
  pub rescue_level : ℕ
  pub auto_hold_until : ℕ

-- `NewSilenceDetectorWithThresholds`
unfoldable pub new_silence_detector_with_thresholds : RescueThresholds → SilenceDetector
new_silence_detector_with_thresholds thresholds = record {
  thresholds = with_defaults thresholds;
  window_start = 0;
  user_speaking = false;
  rescue_level = 0;
  auto_hold_until = 0;
}

-- `OnAISpeechEnd`
unfoldable pub on_ai_speech_end : ℕ → SilenceDetector → SilenceDetector
on_ai_speech_end now d = record d {
  window_start = now;
  rescue_level = 0;
  user_speaking = false;
  auto_hold_until = 0;
}

-- `OnUserSpeechStart`
unfoldable pub on_user_speech_start : SilenceDetector → SilenceDetector
on_user_speech_start d = record d { user_speaking = true; rescue_level = 0; auto_hold_until = 0 }

-- `OnUserSpeechEnd`
unfoldable pub on_user_speech_end : Bool → SilenceDetector → SilenceDetector
on_user_speech_end complete d =
    if complete
    then record d { user_speaking = false; window_start = 0; rescue_level = 0; auto_hold_until = 0 }
    else record d { user_speaking = false }

-- `now.Sub(d.windowStart)`
abbrev pub elapsed : ℕ → SilenceDetector → ℤ
elapsed now d = sub_ℕ now d.window_start

-- The `switch` of `CheckSilence`.
unfoldable pub next_rung : ℤ → SilenceDetector → Option ℕ
next_rung passed d =
    if ltb d.rescue_level 1 && leb_ℤ d.thresholds.level1 passed
    then some 1
    else if ltb d.rescue_level 2 && leb_ℤ d.thresholds.level2 passed
    then some 2
    else if ltb d.rescue_level 3 && leb_ℤ d.thresholds.level3 passed
    then some 3
    else none

-- A rung that fires is recorded.
unfoldable pub fire : Option ℕ → SilenceDetector → Option ℕ × SilenceDetector
fire none d = (none, d)
fire (some level) d = (some level, record d { rescue_level = level })

-- `CheckSilence`: the rung to fire, if any.
unfoldable pub check_silence : ℕ → SilenceDetector → Option ℕ × SilenceDetector
unfolding fire
check_silence now d =
    if d.window_start == 0 || d.user_speaking
    then (none, d)
    else if ltb now d.auto_hold_until
    then (none, d)
    else fire (next_rung (elapsed now d) d) d

-- `Reset`
unfoldable pub reset : SilenceDetector → SilenceDetector
reset d = record d {
  window_start = 0;
  user_speaking = false;
  rescue_level = 0;
  auto_hold_until = 0;
}

-- `RequestNext`: the rung that the user asked for, if any.
unfoldable pub request_next : ℕ → SilenceDetector → Option ℕ × SilenceDetector
unfolding add_time
request_next now d =
    let level = d.rescue_level + 1 in
    let capped = if ltb rescue_level_complete level then rescue_level_complete else level in
    if d.window_start == 0 || d.user_speaking then (none, d) else (
      some capped,
      record d { rescue_level = capped; auto_hold_until = add_time now d.thresholds.level1 },
    )
