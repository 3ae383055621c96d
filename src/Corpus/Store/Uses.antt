-- ===== src/Corpus/Store/Uses.antt =====
-- internal/corpus/memory_store.go: hits and confirmed uses of phrase blocks.
use Prim.Native.String.{◌++◌ as str_append}
use fluentwork_backend.Corpus.Types.{PhraseBlock, Hit, RealUse}
use fluentwork_backend.Corpus.Schedule.{apply_judge}
use fluentwork_backend.Corpus.Store.Defs.{MemoryStore, live_block, put_block}
use fluentwork_backend.Base.{
  ℕ, suc, ◌+◌, String, Bool, true, false, not, ◌&&◌, ◌||◌, none, some, List, [], ◌∷◌, ◌++◌, str_eq,
  ltb, if◌then◌else◌, is_some, pos, length, str_lt, Dict, lookup, insert, sort_by, unix_milli,
  add_ℤ,
}

-- `useKey`
unfoldable pub use_key : String → String → String → String
use_key session_id turn_id block_id =
    str_append session_id (str_append "\0" (str_append turn_id (str_append "\0" block_id)))

-- `sortedHits`
unfoldable pub sorted_hits : List Hit → List Hit
sorted_hits = sort_by (λ a b. str_lt a.block_id b.block_id)

-- A used block: its counters, and the ladder after one success.
abbrev pub used_block : ℕ → PhraseBlock → MemoryStore → PhraseBlock
used_block used_at block s =
    apply_judge s.schedule
      (record block {
        real_use_count = add_ℤ block.real_use_count (pos 1);
        total_uses = add_ℤ block.total_uses (pos 1);
        last_used_at = some used_at;
      })
      true used_at

-- The part of the loop of `RecordHits` that a new use runs.
unfoldable pub credit_hit : String → String → Hit → MemoryStore → MemoryStore
credit_hit user_id turn_id hit s =
    let used_at = unix_milli hit.detected_at_ms in
    elim (live_block user_id hit.block_id s) [
      | none ↦ s
      | some block ↦ record (put_block hit.block_id (used_block used_at block s) s) {
        real_uses =
            s.real_uses
            ++ record {
              id = str_append "hit-" (str_append turn_id (str_append "-" hit.block_id));
              user_id = user_id;
              block_id = hit.block_id;
              source = "hit";
              ref_id = turn_id;
              used_at = used_at;
            }
              ∷ [];
      }
    ]

-- `s.uses[key] = phraseBlockUse{...}`
abbrev pub note_use : String → String → String → Hit → MemoryStore → MemoryStore
note_use user_id session_id turn_id hit s = record s {
  uses =
      insert (use_key session_id turn_id hit.block_id)
        (record {
          user_id = user_id;
          session_id = session_id;
          turn_id = turn_id;
          block_id = hit.block_id;
          used_at_ms = hit.detected_at_ms;
        })
        s.uses;
}

-- The body of the loop of `RecordHits`.
unfoldable pub record_hit : String → String → String → Hit → MemoryStore → MemoryStore
record_hit user_id session_id turn_id hit s =
    if is_some (lookup (use_key session_id turn_id hit.block_id) s.uses)
    then note_use user_id session_id turn_id hit s
    else credit_hit user_id turn_id hit (note_use user_id session_id turn_id hit s)

unfoldable pub record_each : String → String → String → List Hit → MemoryStore → MemoryStore
record_each user_id session_id turn_id [] s = s
record_each user_id session_id turn_id (hit ∷ hits) s =
    record_each user_id session_id turn_id hits (record_hit user_id session_id turn_id hit s)

-- `RecordHits`: the number of rows written, and the store.
unfoldable pub record_hits : String → String → String → List Hit → MemoryStore → ℕ × MemoryStore
record_hits user_id session_id turn_id hits s =
    (length (sorted_hits hits), record_each user_id session_id turn_id (sorted_hits hits) s)

-- Two provenance rows for one use.
unfoldable pub real_use_eq : RealUse → RealUse → Bool
real_use_eq existing use_row =
    str_eq existing.user_id use_row.user_id
    && str_eq existing.block_id use_row.block_id
    && str_eq existing.source use_row.source
    && str_eq existing.ref_id use_row.ref_id

-- The test of `recordRealUseLocked`: the row is there already.
unfoldable pub has_real_use : RealUse → List RealUse → Bool
has_real_use use_row [] = false
has_real_use use_row (existing ∷ rest) = real_use_eq existing use_row || has_real_use use_row rest

-- The row that `RecordRealUses` writes for a block.
abbrev pub real_use : String → String → String → String → ℕ → RealUse
real_use user_id block_id source ref_id at = record {
  id = str_append ref_id (str_append "-" block_id);
  user_id = user_id;
  block_id = block_id;
  source = source;
  ref_id = ref_id;
  used_at = at;
}

-- The body of the loop of `RecordRealUses`, with `recordRealUseLocked`: whether the block was credited.
unfoldable pub record_real_use :
    String → String → String → ℕ → String → MemoryStore → Bool × MemoryStore
record_real_use user_id source ref_id at block_id s =
    let use_row = real_use user_id block_id source ref_id at in
    elim (live_block user_id block_id s) [
      | none ↦ (false, s)
      | some block ↦ if has_real_use use_row s.real_uses then (false, s) else (
        true,
        record (put_block block_id (used_block at block s) s) {
          real_uses = s.real_uses ++ use_row ∷ [];
        },
      )
    ]

-- `RecordRealUses`: how many blocks were credited, and the store.
unfoldable pub record_real_uses :
    String → List String → String → String → ℕ → MemoryStore → ℕ × MemoryStore
record_real_uses user_id [] source ref_id at s = (0, s)
record_real_uses user_id (block_id ∷ block_ids) source ref_id at s =
    let (credited, s') = record_real_use user_id source ref_id at block_id s in
    let (n, s'') = record_real_uses user_id block_ids source ref_id at s' in
    (if credited then suc n else n, s'')

-- `out[key]++` on a map of counts
unfoldable pub count_up : String → Dict ℕ → Dict ℕ
count_up key counts = elim (lookup key counts) [
  | none ↦ insert key 1 counts
  | some n ↦ insert key (n + 1) counts
]

-- `CountRealUsesBySource`
unfoldable pub count_real_uses_by_source : String → ℕ → List RealUse → Dict ℕ → Dict ℕ
unfolding count_up
count_real_uses_by_source user_id since [] out = out
count_real_uses_by_source user_id since (row ∷ rows) out =
    count_real_uses_by_source user_id since rows (
      if str_eq row.user_id user_id && not (ltb row.used_at since)
      then count_up row.source out
      else out)
