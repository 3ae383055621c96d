-- ===== src/Corpus/Schedule/Ladder.antt =====
-- internal/corpus/schedule.go: where a block stands after its judgements.
use fluentwork_backend.Corpus.Types.{PhraseBlock, training, automated}
use fluentwork_backend.Corpus.Schedule.{Schedule, normalize, judge, apply_judge, is_automated}
use fluentwork_backend.Base.{
  ℕ, suc, ◌+◌, ◌<◌, ◌≡◌, refl, sym, ap, ◌∙◌, inl, inr, Bool, true, false, List, [], ◌∷◌, arith, leb,
  Bool-cases, pos, ◌≤ℤ◌, length,
}

-- Every interval is positive, and a promotion takes at least one success.
pub record IsUsable (s : Schedule) : Type 0 where
  pub streak : pos 1 ≤ℤ s.promote_streak
  pub training : pos 1 ≤ℤ s.training_interval
  pub automated : pos 1 ≤ℤ s.automated_interval
  pub review : pos 1 ≤ℤ s.automated_review_interval
  pub fail : pos 1 ≤ℤ s.fail_interval

-- However a schedule was filled, its normal form has positive intervals and a positive streak; a
-- schedule that has them already is its own normal form.
pub normalize-IsUsable : (s : Schedule) → IsUsable (normalize s) × (IsUsable s → normalize s ≡ s)
unfolding normalize
normalize-IsUsable s = (ground arith, λ h. ground arith)

judge_due_later :
    (s : Schedule) (block : PhraseBlock) (pass : Bool) (now : ℕ)
    → IsUsable s
    → now < (judge s block pass now).next_due_at
unfolding judge
judge_due_later s block true now h = ground arith
judge_due_later s block false now h = ground arith

-- Whatever the schedule and the answer, a judged block falls due strictly later than now.
pub apply_judge-due_later :
    (s : Schedule) (block : PhraseBlock) (pass : Bool) (now : ℕ)
    → now < (apply_judge s block pass now).next_due_at
unfolding apply_judge
apply_judge-due_later s block pass now =
    judge_due_later (normalize s) block pass now (normalize-IsUsable s).0

-- A failure takes any block back to training with no streak, and a success never takes an automated
-- block out of its state or changes its streak.
pub apply_judge-demotes_only_failure :
    (s : Schedule) (block : PhraseBlock) (now : ℕ)
    → ((apply_judge s block false now).state ≡ training)
      × ((apply_judge s block false now).success_streak ≡ pos 0)
      × (block.state ≡ automated
          → ((apply_judge s block true now).state ≡ automated)
            × ((apply_judge s block true now).success_streak ≡ block.success_streak))
unfolding apply_judge
apply_judge-demotes_only_failure s block now = (refl, refl, λ h. ground arith)

-- Successes at the given times, one after another.
unfoldable pub succeed : Schedule → List ℕ → PhraseBlock → PhraseBlock
succeed s [] block = block
succeed s (now ∷ times) block = succeed s times (apply_judge s block true now)

judge_promotes :
    (s : Schedule) (goal n now : ℕ) (block : PhraseBlock)
    → s.promote_streak ≡ pos goal
    → block.success_streak ≡ pos n
    → is_automated block.state ≡ false
    → ((judge s block true now).success_streak ≡ pos (suc n))
      × (is_automated (judge s block true now).state ≡ leb goal (suc n))
unfolding judge
judge_promotes s goal n now block e k a = ground arith

judge_stays :
    (s : Schedule) (now : ℕ) (block : PhraseBlock)
    → is_automated block.state ≡ true
    → is_automated (judge s block true now).state ≡ true
unfolding judge
judge_stays s now block a = ground arith

succeed_stays :
    (s : Schedule) (times : List ℕ) (block : PhraseBlock)
    → is_automated block.state ≡ true
    → is_automated (succeed s times block).state ≡ true
unfolding succeed
succeed_stays s [] block a = a
succeed_stays s (now ∷ times) block a =
    succeed_stays s times (apply_judge s block true now)
      (unfold apply_judge in judge_stays (normalize s) now block a)

succeed_from :
    (s : Schedule) (goal n : ℕ) (times : List ℕ) (block : PhraseBlock)
    → (normalize s).promote_streak ≡ pos goal
    → block.success_streak ≡ pos n
    → is_automated block.state ≡ false
    → n < goal
    → is_automated (succeed s times block).state ≡ leb goal (n + length times)
unfolding succeed
succeed_from s goal n [] block e k a lt = ground arith
succeed_from s goal n (now ∷ times) block e k a lt = elim (Bool-cases (leb goal (suc n))) [
  | inl done ↦ succeed_stays s times next (step.1 ∙ done) ∙ sym (omega_leb done)
  | inr more ↦
      succeed_from s goal (suc n) times next e step.0 (step.1 ∙ more) (ground arith)
      ∙ ap (leb goal) (omega arith)
]
  where
    next : PhraseBlock
    next = apply_judge s block true now

    step : (next.success_streak ≡ pos (suc n)) × (is_automated next.state ≡ leb goal (suc n))
    step = unfold apply_judge in judge_promotes (normalize s) goal n now block e k a

    omega_leb : leb goal (suc n) ≡ true → leb goal (n + length (now ∷ times)) ≡ true
    omega_leb h = ground arith

-- A block that starts with no streak is automated after a run of successes exactly when the run is
-- at least as long as the schedule's promotion streak, whenever the answers are given.
pub succeed-promotes :
    (s : Schedule) (goal : ℕ) (times : List ℕ) (block : PhraseBlock)
    → (normalize s).promote_streak ≡ pos goal
    → block.success_streak ≡ pos 0
    → is_automated block.state ≡ false
    → is_automated (succeed s times block).state ≡ leb goal (length times)
succeed-promotes s goal times block e k a =
    succeed_from s goal 0 times block e k a (ground (arith, (normalize-IsUsable s).0))
    ∙ ap (leb goal) (omega arith)
