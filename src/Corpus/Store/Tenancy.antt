-- ===== src/Corpus/Store/Tenancy.antt =====
-- internal/corpus/memory_store.go: a call on behalf of one user leaves the blocks of all others.
use fluentwork_backend.Corpus.Types.{PhraseBlock, BlockState, BlockEdit, Hit}
use fluentwork_backend.Corpus.Store.Defs.{MemoryStore, live_block, is_live_of, put_block}
use fluentwork_backend.Corpus.Store.Blocks.{
  change_block, update_block, set_favorite, soft_delete_block, update_schedule, reset_schedule,
  save_block_edit, change_where, sweep_overdue, soft_delete_all_for_user, restore_deleted_for_user,
}
use fluentwork_backend.Corpus.Store.Uses.{
  credit_hit, record_hit, record_each, record_hits, sorted_hits, record_real_use, record_real_uses,
  use_key, has_real_use, real_use,
}
use fluentwork_backend.Base.{
  ℕ, String, ◌≡◌, inl, inr, Bool, false, ◌&&◌, Option, none, some, List, [], ◌∷◌, arith, str_eq,
  eq_iff, ltb, if◌then◌else◌, is_some, Bool-cases, Option-cases, ℤ, Dict, lookup, lookup-insert,
  lookup-update_all, lookup-insert,
}

-- Every block of a user other than this one stands unchanged under its key.
abbrev pub KeepsOthers : String → Dict PhraseBlock → Dict PhraseBlock → Type 0
KeepsOthers user_id blocks blocks' =
    (key : String) (block : PhraseBlock)
    → lookup key blocks ≡ some block
    → str_eq block.user_id user_id ≡ false
    → lookup key blocks' ≡ some block

KeepsOthers-trans :
    (user_id : String) (s t u : Dict PhraseBlock)
    → KeepsOthers user_id s t
    → KeepsOthers user_id t u
    → KeepsOthers user_id s u
KeepsOthers-trans user_id s t u h k key block e ne = k key block (h key block e ne) ne

put_block-KeepsOthers :
    (user_id block_id : String) (old block' : PhraseBlock) (s : MemoryStore)
    → live_block user_id block_id s ≡ some old
    → KeepsOthers user_id s.blocks (put_block block_id block' s).blocks
unfolding live_block
put_block-KeepsOthers user_id block_id old block' s live key block e ne =
    ground (arith, lookup-insert block_id key block' s.blocks, eq_iff block_id key)

change_block-KeepsOthers :
    (user_id block_id : String) (change : PhraseBlock → PhraseBlock) (s : MemoryStore)
    → KeepsOthers user_id s.blocks (change_block user_id block_id change s).1.blocks
change_block-KeepsOthers user_id block_id change s =
    elim (Option-cases (live_block user_id block_id s)) [
      | inl e ↦ rw (e, change_block) (λ key block h ne. h)
      | inr (old, e) ↦
          rw (e, change_block) (put_block-KeepsOthers user_id block_id old (change old) s e)
    ]

change_where-KeepsOthers :
    (user_id : String) (test : PhraseBlock → Bool) (change : PhraseBlock → PhraseBlock)
    (s : MemoryStore)
    → ((block : PhraseBlock) → str_eq block.user_id user_id ≡ false → test block ≡ false)
    → KeepsOthers user_id s.blocks (change_where test change s).1.blocks
change_where-KeepsOthers user_id test change s own key block e ne =
    ground
      (arith, lookup-update_all (λ b. if test b then change b else b) key s.blocks, own block ne)

save_block_edit-KeepsOthers :
    (edit : BlockEdit) (s : MemoryStore)
    → KeepsOthers edit.user_id s.blocks (save_block_edit edit s).1.blocks
unfolding save_block_edit
save_block_edit-KeepsOthers edit s = elim (Option-cases (live_block edit.user_id edit.block_id s)) [
  | inl e ↦ rw (e, save_block_edit) (λ key block h ne. h)
  | inr (old, e) ↦
      rw (e, save_block_edit) (put_block-KeepsOthers edit.user_id edit.block_id old _ s e)
]

credit_hit-KeepsOthers :
    (user_id turn_id : String) (hit : Hit) (s : MemoryStore)
    → KeepsOthers user_id s.blocks (credit_hit user_id turn_id hit s).blocks
unfolding credit_hit
credit_hit-KeepsOthers user_id turn_id hit s =
    elim (Option-cases (live_block user_id hit.block_id s)) [
      | inl e ↦ rw (e, credit_hit) (λ key block h ne. h)
      | inr (old, e) ↦ rw (e, credit_hit) (put_block-KeepsOthers user_id hit.block_id old _ s e)
    ]

record_hit-KeepsOthers :
    (user_id session_id turn_id : String) (hit : Hit) (s : MemoryStore)
    → KeepsOthers user_id s.blocks (record_hit user_id session_id turn_id hit s).blocks
unfolding record_hit
record_hit-KeepsOthers user_id session_id turn_id hit s =
    elim (Bool-cases (is_some (lookup (use_key session_id turn_id hit.block_id) s.uses))) [
      | inl e ↦ rw (e, record_hit) (λ key block h ne. h)
      | inr e ↦ rw (e, record_hit) (credit_hit-KeepsOthers user_id turn_id hit _)
    ]

record_each-KeepsOthers :
    (user_id session_id turn_id : String) (hits : List Hit) (s : MemoryStore)
    → KeepsOthers user_id s.blocks (record_each user_id session_id turn_id hits s).blocks
unfolding record_each
record_each-KeepsOthers user_id session_id turn_id [] s = λ key block h ne. h
record_each-KeepsOthers user_id session_id turn_id (hit ∷ hits) s =
    KeepsOthers-trans user_id s.blocks _ _ (record_hit-KeepsOthers user_id session_id turn_id hit s)
      (record_each-KeepsOthers user_id session_id turn_id hits _)

record_real_use-KeepsOthers :
    (user_id source ref_id : String) (at : ℕ) (block_id : String) (s : MemoryStore)
    → KeepsOthers user_id s.blocks (record_real_use user_id source ref_id at block_id s).1.blocks
unfolding record_real_use
record_real_use-KeepsOthers user_id source ref_id at block_id s =
    elim (Option-cases (live_block user_id block_id s)) [
      | inl e ↦ rw (e, record_real_use) (λ key block h ne. h)
      | inr (old, e) ↦
          elim (Bool-cases
            (has_real_use (real_use user_id block_id source ref_id at) s.real_uses)) [
              | inl known ↦ rw (e, known, record_real_use) (λ key block h ne. h)
              | inr fresh ↦
                  rw (e, fresh, record_real_use) (put_block-KeepsOthers user_id block_id old _ s e)
            ]
    ]

record_real_uses-KeepsOthers :
    (user_id : String) (block_ids : List String) (source ref_id : String) (at : ℕ) (s : MemoryStore)
    → KeepsOthers user_id s.blocks (record_real_uses user_id block_ids source ref_id at s).1.blocks
unfolding record_real_uses
record_real_uses-KeepsOthers user_id [] source ref_id at s = λ key block h ne. h
record_real_uses-KeepsOthers user_id (b ∷ bs) source ref_id at s =
    KeepsOthers-trans user_id s.blocks _ _
      (record_real_use-KeepsOthers user_id source ref_id at b s)
      (record_real_uses-KeepsOthers user_id bs source ref_id at _)

-- A call that the services make on behalf of one user.
pub data UserCall : Type 0 where
  edits : PhraseBlock → UserCall
  favorites : String → Bool → Option ℕ → ℕ → UserCall
  deletes : String → ℕ → UserCall
  schedules : String → BlockState → ℤ → ℕ → ℕ → UserCall
  resets : String → ℕ → UserCall
  rewrites : BlockEdit → UserCall
  hits : String → String → List Hit → UserCall
  uses : List String → String → String → ℕ → UserCall
  sweeps : ℕ → ℕ → UserCall
  deletes_all : ℕ → UserCall
  restores_all : UserCall

-- The store after a call of this user; the user of a block or an edit is the caller's.
unfoldable pub user_call : String → UserCall → MemoryStore → MemoryStore
user_call user_id (edits block) s = (update_block (record block { user_id = user_id }) s).1
user_call user_id (favorites block_id is_favorite pinned_at updated_at) s =
    (set_favorite user_id block_id is_favorite pinned_at updated_at s).1
user_call user_id (deletes block_id at) s = (soft_delete_block user_id block_id at s).1
user_call user_id (schedules block_id state streak due updated_at) s =
    (update_schedule user_id block_id state streak due updated_at s).1
user_call user_id (resets block_id at) s = (reset_schedule user_id block_id at s).1
user_call user_id (rewrites edit) s = (save_block_edit (record edit { user_id = user_id }) s).1
user_call user_id (hits session_id turn_id found) s =
    (record_hits user_id session_id turn_id found s).1
user_call user_id (uses block_ids source ref_id at) s =
    (record_real_uses user_id block_ids source ref_id at s).1
user_call user_id (sweeps due_before at) s = (sweep_overdue user_id due_before at s).1
user_call user_id (deletes_all at) s = (soft_delete_all_for_user user_id at s).1
user_call user_id restores_all s = (restore_deleted_for_user user_id s).1

unfoldable pub user_calls : String → List UserCall → MemoryStore → MemoryStore
user_calls user_id [] s = s
user_calls user_id (c ∷ cs) s = user_calls user_id cs (user_call user_id c s)

user_call-KeepsOthers :
    (user_id : String) (c : UserCall) (s : MemoryStore)
    → KeepsOthers user_id s.blocks (user_call user_id c s).blocks
unfolding user_call update_block set_favorite soft_delete_block update_schedule reset_schedule
    record_hits sweep_overdue soft_delete_all_for_user restore_deleted_for_user
user_call-KeepsOthers user_id (edits block) s = change_block-KeepsOthers user_id block.id _ s
user_call-KeepsOthers user_id (favorites block_id a b c) s =
    change_block-KeepsOthers user_id block_id _ s
user_call-KeepsOthers user_id (deletes block_id at) s =
    change_block-KeepsOthers user_id block_id _ s
user_call-KeepsOthers user_id (schedules block_id a b c d) s =
    change_block-KeepsOthers user_id block_id _ s
user_call-KeepsOthers user_id (resets block_id at) s = change_block-KeepsOthers user_id block_id _ s
user_call-KeepsOthers user_id (rewrites edit) s =
    save_block_edit-KeepsOthers (record edit { user_id = user_id }) s
user_call-KeepsOthers user_id (hits session_id turn_id found) s =
    record_each-KeepsOthers user_id session_id turn_id (sorted_hits found) s
user_call-KeepsOthers user_id (uses block_ids source ref_id at) s =
    record_real_uses-KeepsOthers user_id block_ids source ref_id at s
user_call-KeepsOthers user_id (sweeps due at) s =
    change_where-KeepsOthers user_id (λ b. is_live_of user_id b && ltb b.next_due_at due)
      (λ b. record b { next_due_at = at; updated_at = at }) s (λ b ne. ground arith)
user_call-KeepsOthers user_id (deletes_all at) s =
    change_where-KeepsOthers user_id (is_live_of user_id)
      (λ b. record b { deleted_at = some at; updated_at = at }) s (λ b ne. ground arith)
user_call-KeepsOthers user_id restores_all s =
    change_where-KeepsOthers user_id (λ b. str_eq b.user_id user_id && is_some b.deleted_at)
      (λ b. record b { deleted_at = none }) s (λ b ne. ground arith)

-- No sequence of calls of one user, over edits, favourites, deletions, schedules, rewrites, hits,
-- confirmed uses, sweeps and the wipe and restore of an account, changes a block of another user.
pub user_calls-KeepsOthers :
    (user_id : String) (cs : List UserCall) (s : MemoryStore)
    → KeepsOthers user_id s.blocks (user_calls user_id cs s).blocks
unfolding user_calls
user_calls-KeepsOthers user_id [] s = λ key block h ne. h
user_calls-KeepsOthers user_id (c ∷ cs) s =
    KeepsOthers-trans user_id s.blocks _ _ (user_call-KeepsOthers user_id c s)
      (user_calls-KeepsOthers user_id cs (user_call user_id c s))
