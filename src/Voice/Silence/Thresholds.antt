-- ===== src/Voice/Silence/Thresholds.antt =====
-- internal/voicegateway/silence_detector.go: the rungs that `withDefaults` yields.
use fluentwork_backend.Voice.Silence.{RescueThresholds, with_defaults}
use fluentwork_backend.Base.{◌≡◌, arith, pos, ◌≤ℤ◌}

-- The rungs are positive and climb.
pub record IsLadder (t : RescueThresholds) : Type 0 where
  pub starts : pos 1 ≤ℤ t.level1
  pub second : t.level1 ≤ℤ t.level2
  pub third : t.level2 ≤ℤ t.level3

-- Whatever rungs a caller gives, unset, negative or out of order, the detector's are positive and
-- climb; rungs that are so already are kept as they are.
pub with_defaults-IsLadder :
    (t : RescueThresholds) → IsLadder (with_defaults t) × (IsLadder t → with_defaults t ≡ t)
unfolding with_defaults
with_defaults-IsLadder t = (ground arith, λ h. ground arith)
