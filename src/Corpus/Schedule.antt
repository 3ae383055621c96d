-- ===== src/Corpus/Schedule.antt =====
-- internal/corpus/schedule.go: the ladder of spaced repetition.
pub mod Ladder
use fluentwork_backend.Corpus.Types.{PhraseBlock, BlockState, new, training, automated, other}
use fluentwork_backend.Base.{
  ℕ, ◌*◌, Bool, true, false, not, if◌then◌else◌, ℤ, pos, ltb_ℤ, leb_ℤ, hour, add_time, succ_ℤ,
}

pub record Schedule : Type 0 where
  pub promote_streak : ℤ
  pub training_interval : ℤ
  pub automated_interval : ℤ
  pub automated_review_interval : ℤ
  pub fail_interval : ℤ

-- `DefaultSchedule`
abbrev pub default_schedule : Schedule
default_schedule = record {
  promote_streak = pos 3;
  training_interval = pos (24 * hour);
  automated_interval = pos (7 * 24 * hour);
  automated_review_interval = pos (30 * 24 * hour);
  fail_interval = pos hour;
}

abbrev pub or_interval : ℤ → ℤ → ℤ
or_interval d default = if leb_ℤ d (pos 0) then default else d

-- `Normalize`
unfoldable pub normalize : Schedule → Schedule
normalize s = record {
  promote_streak =
      if ltb_ℤ s.promote_streak (pos 1) then default_schedule.promote_streak else s.promote_streak;
  training_interval = or_interval s.training_interval default_schedule.training_interval;
  automated_interval = or_interval s.automated_interval default_schedule.automated_interval;
  automated_review_interval =
      or_interval s.automated_review_interval default_schedule.automated_review_interval;
  fail_interval = or_interval s.fail_interval default_schedule.fail_interval;
}

abbrev pub is_automated : BlockState → Bool
is_automated automated = true
is_automated _ = false

-- `ApplyJudge` after `s = s.Normalize()`
unfoldable pub judge : Schedule → PhraseBlock → Bool → ℕ → PhraseBlock
unfolding add_time
judge s block pass now =
    let streak = succ_ℤ block.success_streak in
    if not pass
    then record block {
      updated_at = now;
      success_streak = pos 0;
      state = training;
      next_due_at = add_time now s.fail_interval;
    }
    else if is_automated block.state
    then record block { updated_at = now; next_due_at = add_time now s.automated_review_interval }
    else if leb_ℤ s.promote_streak streak
    then record block {
      updated_at = now;
      success_streak = streak;
      state = automated;
      next_due_at = add_time now s.automated_interval;
    }
    else record block {
      updated_at = now;
      success_streak = streak;
      state = training;
      next_due_at = add_time now s.training_interval;
    }

-- `Schedule.ApplyJudge`
unfoldable pub apply_judge : Schedule → PhraseBlock → Bool → ℕ → PhraseBlock
unfolding judge normalize
apply_judge s = judge (normalize s)
