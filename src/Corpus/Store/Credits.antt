-- ===== src/Corpus/Store/Credits.antt =====
-- internal/corpus/memory_store.go: what a repeated report of confirmed uses or of feedback does. The
-- client may send the same checkin or tap more than once.
use fluentwork_backend.Corpus.Types.{PhraseBlock, Feedback, RealUse}
use fluentwork_backend.Corpus.Schedule.{apply_judge}
use fluentwork_backend.Corpus.Store.Defs.{MemoryStore, live_block, is_live_of, put_block}
use fluentwork_backend.Corpus.Store.Uses.{
  used_block, real_use, real_use_eq, has_real_use, record_real_use, record_real_uses,
}
use fluentwork_backend.Corpus.Store.Feedback.{is_recorded, has_feedback, save_feedback}
use fluentwork_backend.Base.{
  ℕ, String, ◌≡◌, refl, ap, ◌∙◌, ◌⊎◌, inl, inr, Bool, true, false, none, some, List, [], ◌∷◌, ◌++◌,
  arith, eq_iff, eq_refl, is_some, Bool-cases, Option-cases, All, lookup-insert, lookup-insert,
}

-- Whether the user has the block.
abbrev is_live : String → MemoryStore → String → Bool
is_live user_id s block_id = is_some (live_block user_id block_id s)

-- A further report of the use of a block would credit nothing.
abbrev IsSettled : String → String → String → MemoryStore → String → Type 0
IsSettled user_id source ref_id s block_id =
    (is_live user_id s block_id ≡ false)
    ⊎ (has_real_use (real_use user_id block_id source ref_id 0) s.real_uses ≡ true)

used_block-live :
    (used_at : ℕ) (block : PhraseBlock) (s : MemoryStore) (user_id : String)
    → is_live_of user_id (used_block used_at block s) ≡ is_live_of user_id block
unfolding apply_judge
used_block-live used_at block s user_id = ground arith

put_block-live :
    (user_id block_id other : String) (old block' : PhraseBlock) (s : MemoryStore)
    → live_block user_id block_id s ≡ some old
    → is_live_of user_id block' ≡ is_live_of user_id old
    → is_live user_id (put_block block_id block' s) other ≡ is_live user_id s other
unfolding live_block
put_block-live user_id block_id other old block' s e h =
    ground (arith, lookup-insert block_id other block' s.blocks, eq_iff block_id other)

has_real_use-append :
    (row new_row : RealUse) (rows : List RealUse)
    → has_real_use row rows ≡ true
    → has_real_use row (rows ++ new_row ∷ []) ≡ true
unfolding has_real_use
has_real_use-append row new_row [] h = cc
has_real_use-append row new_row (r ∷ rows) h = ground (arith, has_real_use-append row new_row rows)

has_real_use-append_self :
    (user_id block_id source ref_id : String) (at at' : ℕ) (rows : List RealUse)
    → has_real_use
        (real_use user_id block_id source ref_id at)
        (rows ++ real_use user_id block_id source ref_id at' ∷ [])
      ≡ true
unfolding has_real_use real_use_eq
has_real_use-append_self user_id block_id source ref_id at at' [] = simp eq_refl
has_real_use-append_self user_id block_id source ref_id at at' (r ∷ rows) =
    ground (arith, has_real_use-append_self user_id block_id source ref_id at at' rows)

has_real_use-at :
    (user_id block_id source ref_id : String) (at at' : ℕ) (rows : List RealUse)
    → has_real_use (real_use user_id block_id source ref_id at) rows
      ≡ has_real_use (real_use user_id block_id source ref_id at') rows
unfolding has_real_use real_use_eq
has_real_use-at user_id block_id source ref_id at at' [] = refl
has_real_use-at user_id block_id source ref_id at at' (r ∷ rows) =
    rw (has_real_use-at user_id block_id source ref_id at at' rows)

-- What one report of a use does, by whether the block was credited.
record_real_use-cases :
    (user_id source ref_id : String) (at : ℕ) (block_id : String) (s : MemoryStore)
    → (IsSettled user_id source ref_id s block_id
        × (record_real_use user_id source ref_id at block_id s ≡ (false, s)))
      ⊎ ((block : PhraseBlock) × (live_block user_id block_id s ≡ some block)
          × (record_real_use user_id source ref_id at block_id s ≡ (
            true,
            record (put_block block_id (used_block at block s) s) {
              real_uses = s.real_uses ++ real_use user_id block_id source ref_id at ∷ [];
            },
          )))
unfolding record_real_use
record_real_use-cases user_id source ref_id at block_id s =
    elim (Option-cases (live_block user_id block_id s)) [
      | inl e ↦ inl (inl (rw e), rw (e, record_real_use))
      | inr (block, e) ↦
          elim (Bool-cases
            (has_real_use (real_use user_id block_id source ref_id at) s.real_uses)) [
              | inl known ↦ inl (
                inr (has_real_use-at user_id block_id source ref_id 0 at s.real_uses ∙ known),
                rw (e, known, record_real_use),
              )
              | inr fresh ↦ inr (block, e, rw (e, fresh, record_real_use))
            ]
    ]

record_real_use_settled :
    (user_id source ref_id : String) (at : ℕ) (block_id : String) (s : MemoryStore)
    → IsSettled user_id source ref_id s block_id
    → record_real_use user_id source ref_id at block_id s ≡ (false, s)
unfolding record_real_use
record_real_use_settled user_id source ref_id at block_id s h =
    elim (Option-cases (live_block user_id block_id s)) [
      | inl e ↦ rw (e, record_real_use)
      | inr (block, e) ↦ elim h [
        | inl gone ↦ absurd (cc (gone, ap is_some e))
        | inr known ↦ rw (
          e,
          has_real_use-at user_id block_id source ref_id at 0 s.real_uses ∙ known,
          record_real_use,
        )
      ]
    ]

record_real_use_keeps_IsSettled :
    (user_id source ref_id : String) (at : ℕ) (block_id other : String) (s : MemoryStore)
    → IsSettled user_id source ref_id s other
    → IsSettled user_id source ref_id (record_real_use user_id source ref_id at block_id s).1 other
unfolding live_block
record_real_use_keeps_IsSettled user_id source ref_id at block_id other s h =
    elim (record_real_use-cases user_id source ref_id at block_id s) [
      | inl (_, e) ↦ rw e h
      | inr (block, e, r) ↦ rw r (after block e h)
    ]
  where
    after :
        (block : PhraseBlock)
        → live_block user_id block_id s ≡ some block
        → IsSettled user_id source ref_id s other
        → IsSettled user_id source ref_id
            (record (put_block block_id (used_block at block s) s) {
              real_uses = s.real_uses ++ real_use user_id block_id source ref_id at ∷ [];
            })
            other
    after block e (inl gone) = inl (
        put_block-live user_id block_id other block (used_block at block s) s e
          (used_block-live at block s user_id)
        ∙ gone)
    after block e (inr known) = inr (has_real_use-append _ _ s.real_uses known)

record_real_use_settles :
    (user_id source ref_id : String) (at : ℕ) (block_id : String) (s : MemoryStore)
    → IsSettled user_id source ref_id
        (record_real_use user_id source ref_id at block_id s).1
        block_id
record_real_use_settles user_id source ref_id at block_id s =
    elim (record_real_use-cases user_id source ref_id at block_id s) [
      | inl (settled, e) ↦ rw e settled
      | inr (block, e, r) ↦
          rw r (inr (has_real_use-append_self user_id block_id source ref_id 0 at s.real_uses))
    ]

record_real_uses_keep_IsSettled :
    (user_id : String) (ids : List String) (source ref_id : String) (at : ℕ) (other : String)
    (s : MemoryStore)
    → IsSettled user_id source ref_id s other
    → IsSettled user_id source ref_id (record_real_uses user_id ids source ref_id at s).1 other
unfolding record_real_uses
record_real_uses_keep_IsSettled user_id [] source ref_id at other s h = h
record_real_uses_keep_IsSettled user_id (id ∷ ids) source ref_id at other s h =
    record_real_uses_keep_IsSettled user_id ids source ref_id at other
      (record_real_use user_id source ref_id at id s).1
      (record_real_use_keeps_IsSettled user_id source ref_id at id other s h)

record_real_uses_settle :
    (user_id : String) (ids : List String) (source ref_id : String) (at : ℕ) (s : MemoryStore)
    → All (IsSettled user_id source ref_id (record_real_uses user_id ids source ref_id at s).1) ids
unfolding record_real_uses
record_real_uses_settle user_id [] source ref_id at s = tt
record_real_uses_settle user_id (id ∷ ids) source ref_id at s =
    let t = (record_real_use user_id source ref_id at id s).1 in
    (
      record_real_uses_keep_IsSettled user_id ids source ref_id at id t
          (record_real_use_settles user_id source ref_id at id s),
      record_real_uses_settle user_id ids source ref_id at t,
    )

record_real_uses_settled :
    (user_id : String) (ids : List String) (source ref_id : String) (at : ℕ) (s : MemoryStore)
    → All (IsSettled user_id source ref_id s) ids
    → record_real_uses user_id ids source ref_id at s ≡ (0, s)
unfolding record_real_uses
record_real_uses_settled user_id [] source ref_id at s h = refl
record_real_uses_settled user_id (id ∷ ids) source ref_id at s (e, h) =
    rw (record_real_use_settled user_id source ref_id at id s e)
      (rw (record_real_uses_settled user_id ids source ref_id at s h))

-- Reporting the uses of the same blocks under the same source and reference once more, at any time,
-- credits no block and leaves the whole store as it is.
pub record_real_uses-replay :
    (user_id : String) (ids : List String) (source ref_id : String) (at later : ℕ) (s : MemoryStore)
    → let (_, t) = record_real_uses user_id ids source ref_id at s in
      record_real_uses user_id ids source ref_id later t ≡ (0, t)
record_real_uses-replay user_id ids source ref_id at later s =
    record_real_uses_settled user_id ids source ref_id later _
      (record_real_uses_settle user_id ids source ref_id at s)

has_feedback-append :
    (feedback : Feedback) (rows : List Feedback)
    → has_feedback feedback (rows ++ record feedback { deleted_at = none } ∷ []) ≡ true
unfolding has_feedback is_recorded
has_feedback-append feedback [] = simp eq_refl
has_feedback-append feedback (row ∷ rows) = ground (arith, has_feedback-append feedback rows)

-- A second tap of the same feedback creates no row and changes nothing, whether the first created
-- one or found one.
pub save_feedback-replay :
    (feedback : Feedback) (s : MemoryStore)
    → let (_, t) = save_feedback feedback s in save_feedback feedback t ≡ (false, t)
unfolding save_feedback
save_feedback-replay feedback s = ground (arith, has_feedback-append feedback s.feedback)
