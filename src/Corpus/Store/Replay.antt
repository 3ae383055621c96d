-- ===== src/Corpus/Store/Replay.antt =====
-- internal/corpus/memory_store.go: what a repeated report of hits does. The gateway may send the
-- same hits of a turn more than once.
use fluentwork_backend.Corpus.Types.{Hit}
use fluentwork_backend.Corpus.Store.Defs.{MemoryStore, live_block}
use fluentwork_backend.Corpus.Store.Uses.{
  use_key, credit_hit, note_use, record_hit, record_each, record_hits, sorted_hits,
}
use fluentwork_backend.Base.{
  String, ◌≡◌, refl, ◌∙◌, inl, inr, true, List, [], ◌∷◌, is_some, Bool-cases, Option-cases, All,
  All-mono, lookup, lookup-insert_self, is_some-lookup-insert,
}

-- The ledger of uses has a row for the hit.
abbrev IsNoted : String → String → MemoryStore → Hit → Type 0
IsNoted session_id turn_id s hit =
    is_some (lookup (use_key session_id turn_id hit.block_id) s.uses) ≡ true

credit_hit-uses :
    (user_id turn_id : String) (hit : Hit) (s : MemoryStore)
    → (credit_hit user_id turn_id hit s).uses ≡ s.uses
unfolding credit_hit
credit_hit-uses user_id turn_id hit s = elim (Option-cases (live_block user_id hit.block_id s)) [
  | inl e ↦ rw (e, credit_hit)
  | inr (block, e) ↦ rw (e, credit_hit)
]

record_hit-uses :
    (user_id session_id turn_id : String) (hit : Hit) (s : MemoryStore)
    → (record_hit user_id session_id turn_id hit s).uses
      ≡ (note_use user_id session_id turn_id hit s).uses
unfolding record_hit
record_hit-uses user_id session_id turn_id hit s =
    elim (Bool-cases (is_some (lookup (use_key session_id turn_id hit.block_id) s.uses))) [
      | inl e ↦ rw (e, record_hit)
      | inr e ↦ rw (e, record_hit) (credit_hit-uses user_id turn_id hit _)
    ]

record_hit-IsNoted :
    (user_id session_id turn_id : String) (hit other : Hit) (s : MemoryStore)
    → IsNoted session_id turn_id s other
    → IsNoted session_id turn_id (record_hit user_id session_id turn_id hit s) other
record_hit-IsNoted user_id session_id turn_id hit other s h =
    rw (record_hit-uses user_id session_id turn_id hit s)
      (is_some-lookup-insert (use_key session_id turn_id hit.block_id) _ _ s.uses h)

record_hit-IsNoted_self :
    (user_id session_id turn_id : String) (hit : Hit) (s : MemoryStore)
    → IsNoted session_id turn_id (record_hit user_id session_id turn_id hit s) hit
record_hit-IsNoted_self user_id session_id turn_id hit s =
    rw (record_hit-uses user_id session_id turn_id hit s) (rw lookup-insert_self)

record_each-IsNoted :
    (user_id session_id turn_id : String) (hits : List Hit) (other : Hit) (s : MemoryStore)
    → IsNoted session_id turn_id s other
    → IsNoted session_id turn_id (record_each user_id session_id turn_id hits s) other
unfolding record_each
record_each-IsNoted user_id session_id turn_id [] other s h = h
record_each-IsNoted user_id session_id turn_id (hit ∷ hits) other s h =
    record_each-IsNoted user_id session_id turn_id hits other
      (record_hit user_id session_id turn_id hit s)
      (record_hit-IsNoted user_id session_id turn_id hit other s h)

record_each_notes :
    (user_id session_id turn_id : String) (hits : List Hit) (s : MemoryStore)
    → All (IsNoted session_id turn_id (record_each user_id session_id turn_id hits s)) hits
unfolding record_each
record_each_notes user_id session_id turn_id [] s = tt
record_each_notes user_id session_id turn_id (hit ∷ hits) s = (
  record_each-IsNoted user_id session_id turn_id hits hit
      (record_hit user_id session_id turn_id hit s)
      (record_hit-IsNoted_self user_id session_id turn_id hit s),
  record_each_notes user_id session_id turn_id hits (record_hit user_id session_id turn_id hit s),
)

-- All that a learner's progress depends on.
abbrev pub SameProgress : MemoryStore → MemoryStore → Type 0
SameProgress s t =
    (t.blocks ≡ s.blocks)
    × (t.real_uses ≡ s.real_uses)
    × (t.feedback ≡ s.feedback)
    × (t.edits ≡ s.edits)
    × (t.schedule ≡ s.schedule)

record_hit_known :
    (user_id session_id turn_id : String) (hit : Hit) (s : MemoryStore)
    → IsNoted session_id turn_id s hit
    → SameProgress s (record_hit user_id session_id turn_id hit s)
unfolding record_hit
record_hit_known user_id session_id turn_id hit s e =
    rw (e, record_hit) (refl, refl, refl, refl, refl)

record_each_known :
    (user_id session_id turn_id : String) (hits : List Hit) (s : MemoryStore)
    → All (IsNoted session_id turn_id s) hits
    → SameProgress s (record_each user_id session_id turn_id hits s)
unfolding record_each
record_each_known user_id session_id turn_id [] s h = (refl, refl, refl, refl, refl)
record_each_known user_id session_id turn_id (hit ∷ hits) s (e, h) =
    let t = record_hit user_id session_id turn_id hit s in
    let a = record_hit_known user_id session_id turn_id hit s e in
    let b = record_each_known user_id session_id turn_id hits t (
      All-mono (IsNoted session_id turn_id s) (IsNoted session_id turn_id t) hits
        (λ other. record_hit-IsNoted user_id session_id turn_id hit other s) h) in
    (b.0 ∙ a.0, b.1 ∙ a.1, b.2 ∙ a.2, b.3 ∙ a.3, b.4 ∙ a.4)

-- Reporting the hits of a turn once more, after any first report of them, credits nothing: blocks,
-- counters, streaks, due times and provenance rows stay as the first report left them.
pub record_hits-replay :
    (user_id session_id turn_id : String) (hits : List Hit) (s : MemoryStore)
    → let (_, t) = record_hits user_id session_id turn_id hits s in
      SameProgress t (record_hits user_id session_id turn_id hits t).1
unfolding record_hits
record_hits-replay user_id session_id turn_id hits s =
    record_each_known user_id session_id turn_id (sorted_hits hits)
      (record_each user_id session_id turn_id (sorted_hits hits) s)
      (record_each_notes user_id session_id turn_id (sorted_hits hits) s)
