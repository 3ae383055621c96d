-- ===== src/Corpus/Hits.antt =====
-- internal/corpus/hits_service.go and ListSessionHits of memory_store.go: reports of hits, and the recent hits of a session.
pub mod Latest
pub mod Lookback
use fluentwork_backend.Base.{
  ℕ, String, Bool, Option, none, some, List, [], ◌∷◌, ◌++◌, str_eq, leb, ◌==◌, if◌then◌else◌,
  is_some, ℤ, pos, pos_part, ltb_ℤ, leb_ℤ, length, keep_if, any, trim_space, str_lt, Dict, lookup,
  insert, values, sort_by, add_ℤ, Result, ok, err, eq_ℤ,
}
use fluentwork_backend.Corpus.Types.{Hit, BlockUse, PhraseBlock}
use fluentwork_backend.Corpus.Store.{MemoryStore, record_hits}

pub record RecentHit : Type 0 where
  pub block_id : String
  pub turn_id : String
  pub used_at_ms : ℤ
  pub intent_zh : String
  pub chunk_en : String

pub record RecentHitsResult : Type 0 where
  pub hits : List RecentHit
  pub ttl_at_ms : ℤ

-- `RecentHitTTLMs`
abbrev pub recent_hit_ttl_ms : ℕ
recent_hit_ttl_ms = 60_000

-- An apierr value with its message.
pub data HitsError : Type 0 where
  invalid_argument : String → HitsError

-- A reported hit as `dedupeHits` reads it.
abbrev pub tidy_hit : String → Hit → Hit
tidy_hit turn_id hit = record hit {
  block_id = trim_space hit.block_id;
  turn_id = if str_eq (trim_space hit.turn_id) "" then turn_id else hit.turn_id;
}

-- The hit that is kept of one that was seen and another of the same block.
abbrev pub later_hit : Option Hit → Hit → Hit
later_hit none hit = hit
later_hit (some seen) hit = if leb_ℤ seen.detected_at_ms hit.detected_at_ms then hit else seen

-- The loop of `dedupeHits`. A block keeps the place where it was first seen.
unfoldable pub dedupe_from : String → List Hit → Dict Hit → Dict Hit
dedupe_from turn_id [] seen = seen
dedupe_from turn_id (raw ∷ hits) seen =
    let hit = tidy_hit turn_id raw in
    let skipped = dedupe_from turn_id hits seen in
    let kept =
      dedupe_from turn_id hits
        (insert hit.block_id (later_hit (lookup hit.block_id seen) hit) seen) in
    if str_eq hit.block_id "" then skipped else kept

-- `dedupeHits`
unfoldable pub dedupe_hits : String → List Hit → List Hit
unfolding dedupe_from
dedupe_hits turn_id hits = values (dedupe_from turn_id hits [])

-- `RecordHits` of the service
unfoldable pub report_hits :
    String → String → String → List Hit → MemoryStore → Result HitsError ℕ × MemoryStore
unfolding dedupe_hits
report_hits raw_user raw_session raw_turn hits s =
    let user_id = trim_space raw_user in
    let session_id = trim_space raw_session in
    let turn_id = trim_space raw_turn in
    let deduped = dedupe_hits turn_id hits in
    let (count, after) = record_hits user_id session_id turn_id deduped s in
    if str_eq user_id ""
    then (err (HitsError.invalid_argument "user_id is required"), s)
    else if str_eq session_id ""
    then (err (HitsError.invalid_argument "session_id is required"), s)
    else if str_eq turn_id ""
    then (err (HitsError.invalid_argument "turn_id is required"), s)
    else if length deduped == 0
    then (ok 0, s)
    else (ok count, after)

-- The row that is listed for a use, if its block is there and live.
abbrev pub recent_of : MemoryStore → BlockUse → Option RecentHit
recent_of s row = elim (lookup row.block_id s.blocks) [
  | none ↦ none
  | some block ↦
      if is_some block.deleted_at
      then none
      else some (record {
        block_id = row.block_id;
        turn_id = row.turn_id;
        used_at_ms = row.used_at_ms;
        intent_zh = block.intent_zh;
        chunk_en = block.expression_en;
      })
]

-- The loop of `ListSessionHits`.
unfoldable pub session_hits : String → MemoryStore → List BlockUse → List RecentHit
session_hits session_id s [] = []
session_hits session_id s (row ∷ uses) =
    let rest = session_hits session_id s uses in
    let found = recent_of s row in
    let listed = elim found as (λ _. List RecentHit) [ none ↦ rest | some hit ↦ hit ∷ rest ] in
    if str_eq row.session_id session_id then listed else rest

-- The newest first, and those of one time by block.
abbrev pub is_newer_hit : RecentHit → RecentHit → Bool
is_newer_hit left right =
    if eq_ℤ left.used_at_ms right.used_at_ms
    then str_lt left.block_id right.block_id
    else ltb_ℤ right.used_at_ms left.used_at_ms

-- `ListSessionHits`
unfoldable pub list_session_hits : String → MemoryStore → List RecentHit
unfolding session_hits
list_session_hits session_id s = sort_by is_newer_hit (session_hits session_id s (values s.uses))

-- Whether a turn stands in a list of turns.
abbrev pub is_among : String → List String → Bool
is_among turn_id turns = any (λ other. str_eq other turn_id) turns

-- The first loop of `applyLookback`: the turns that are allowed.
unfoldable pub allow_turns : ℕ → List String → List RecentHit → List String
allow_turns lookback allowed [] = allowed
allow_turns lookback allowed (hit ∷ hits) =
    let same = allow_turns lookback allowed hits in
    let longer = allow_turns lookback (allowed ++ hit.turn_id ∷ []) hits in
    if is_among hit.turn_id allowed
    then same
    else if leb lookback (length allowed)
    then same
    else longer

-- `applyLookback`, for a number of turns that is not negative
unfoldable pub apply_lookback : ℕ → List RecentHit → List RecentHit
unfolding allow_turns
apply_lookback lookback hits =
    if lookback == 0
    then []
    else keep_if (λ hit. is_among hit.turn_id (allow_turns lookback [] hits)) hits

abbrev pub ttl_of : List RecentHit → ℤ
ttl_of [] = pos 0
ttl_of (hit ∷ hits) = add_ℤ hit.used_at_ms (pos recent_hit_ttl_ms)

-- `RecentHits` of the service
unfoldable pub recent_hits : String → ℤ → MemoryStore → Result HitsError RecentHitsResult
unfolding list_session_hits apply_lookback
recent_hits raw_session lookback s =
    let session_id = trim_space raw_session in
    let filtered = apply_lookback (pos_part lookback) (list_session_hits session_id s) in
    if str_eq session_id ""
    then err (HitsError.invalid_argument "session_id is required")
    else ok (record { hits = filtered; ttl_at_ms = ttl_of filtered })
