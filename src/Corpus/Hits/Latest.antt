-- ===== src/Corpus/Hits/Latest.antt =====
-- internal/corpus/hits_service.go: of the reports of one block, the latest is recorded, once.
use fluentwork_backend.Base.{
  String, ◌≡◌, refl, sym, subst, inl, inr, Bool, true, false, Option, none, some, List, [], ◌∷◌,
  ◌++◌, arith, str_eq, eq_iff, if◌then◌else◌, Bool-cases, ℤ, ltb_ℤ, leb_ℤ, All, keep_if, All-append,
  All-mono, trim_space, Dict, lookup, insert, values, HasKeysOnce, lookup-insert,
  insert-HasKeysOnce, insert-HasKeysOnce, lookup-insert, append_assoc, insert-HasKeysOnce,
  append-[],
}
use fluentwork_backend.Corpus.Types.{Hit}
use fluentwork_backend.Corpus.Hits.{tidy_hit, later_hit, dedupe_from, dedupe_hits}

-- What the loop keeps of the reports of one block.
abbrev latest : Option Hit → List Hit → Option Hit
latest found [] = found
latest found (hit ∷ hits) = latest (some (later_hit found hit)) hits

-- Whether a report names the block.
abbrev pub names_block : String → String → Hit → Bool
names_block turn_id block_id raw = str_eq (tidy_hit turn_id raw).block_id block_id

abbrev pub tidied : String → List Hit → List Hit
tidied turn_id [] = []
tidied turn_id (hit ∷ hits) = tidy_hit turn_id hit ∷ tidied turn_id hits

lookup-dedupe_from :
    (turn_id block_id : String) (hits : List Hit) (seen : Dict Hit)
    → str_eq block_id "" ≡ false
    → lookup block_id (dedupe_from turn_id hits seen)
      ≡ latest (lookup block_id seen) (tidied turn_id (keep_if (names_block turn_id block_id) hits))
unfolding dedupe_from
lookup-dedupe_from turn_id block_id [] seen named = refl
lookup-dedupe_from turn_id block_id (raw ∷ hits) seen named =
    let own = (tidy_hit turn_id raw).block_id in
    let after = insert own (later_hit (lookup own seen) (tidy_hit turn_id raw)) seen in
    elim (Bool-cases (str_eq own block_id)) [
      | inl e ↦
          let same : own ≡ block_id = (eq_iff own block_id).0 e in
          let own_named : str_eq own "" ≡ false =
            subst (λ id. str_eq id "" ≡ false) (sym same) named in
          rw
            (
              e,
              own_named,
              lookup-dedupe_from turn_id block_id hits after named,
              lookup-insert,
              e,
              same,
            )
            refl
      | inr e ↦ elim (Bool-cases (str_eq own "")) [
        | inl f ↦ rw (e, f) (lookup-dedupe_from turn_id block_id hits seen named)
        | inr f ↦
            rw (e, f, lookup-dedupe_from turn_id block_id hits after named, lookup-insert, e) refl
      ]
    ]

-- No block stands twice among the keys, and no key is empty.
dedupe_from-HasKeysOnce :
    (turn_id : String) (hits : List Hit) (seen : Dict Hit)
    → HasKeysOnce seen
    → HasKeysOnce (dedupe_from turn_id hits seen)
unfolding dedupe_from
dedupe_from-HasKeysOnce turn_id [] seen h = h
dedupe_from-HasKeysOnce turn_id (raw ∷ hits) seen h =
    let hit = tidy_hit turn_id raw in
    elim (Bool-cases (str_eq hit.block_id "")) [
      | inl e ↦ rw e (dedupe_from-HasKeysOnce turn_id hits seen h)
      | inr e ↦ rw e (
          dedupe_from-HasKeysOnce turn_id hits
            (insert hit.block_id (later_hit (lookup hit.block_id seen) hit) seen)
            (insert-HasKeysOnce hit.block_id (later_hit (lookup hit.block_id seen) hit) seen h))
    ]

lookup-dedupe_from-empty :
    (turn_id : String) (hits : List Hit) (seen : Dict Hit)
    → lookup "" seen ≡ none
    → lookup "" (dedupe_from turn_id hits seen) ≡ none
unfolding dedupe_from
lookup-dedupe_from-empty turn_id [] seen h = h
lookup-dedupe_from-empty turn_id (raw ∷ hits) seen h =
    let hit = tidy_hit turn_id raw in
    elim (Bool-cases (str_eq hit.block_id "")) [
      | inl e ↦ rw e (lookup-dedupe_from-empty turn_id hits seen h)
      | inr e ↦ rw e (
          lookup-dedupe_from-empty turn_id hits
            (insert hit.block_id (later_hit (lookup hit.block_id seen) hit) seen)
            (rw (lookup-insert, e) h))
    ]

-- The turn of a report: its own, or that of the request where it names none.
abbrev turn_or : String → String → String
turn_or turn_id given = if str_eq (trim_space given) "" then turn_id else given

-- The reports that name a block but for space, in their order, with the block's id and their turn.
abbrev pub reports_of : String → String → List Hit → List Hit
reports_of turn_id block_id [] = []
reports_of turn_id block_id (raw ∷ hits) =
    let rest = reports_of turn_id block_id hits in
    if str_eq (trim_space raw.block_id) block_id
    then record raw { block_id = block_id; turn_id = turn_or turn_id raw.turn_id } ∷ rest
    else rest

tidied-reports_of :
    (turn_id block_id : String) (hits : List Hit)
    → tidied turn_id (keep_if (names_block turn_id block_id) hits)
      ≡ reports_of turn_id block_id hits
tidied-reports_of turn_id block_id [] = refl
tidied-reports_of turn_id block_id (raw ∷ hits) =
    elim (Bool-cases (str_eq (trim_space raw.block_id) block_id)) [
      | inl e ↦
          let same : trim_space raw.block_id ≡ block_id =
            (eq_iff (trim_space raw.block_id) block_id).0 e in
          rw (e, tidied-reports_of turn_id block_id hits, same) refl
      | inr e ↦ rw e (tidied-reports_of turn_id block_id hits)
    ]

-- A report that none before it is later than, and that is later than all after it.
abbrev pub IsLatest : Hit → List Hit → Type 0
IsLatest hit reports =
    (before : List Hit) × (after : List Hit) × (reports ≡ before ++ (hit ∷ after))
    × All (λ x. leb_ℤ x.detected_at_ms hit.detected_at_ms ≡ true) before
    × All (λ x. ltb_ℤ x.detected_at_ms hit.detected_at_ms ≡ true) after

leb_ℤ_trans : (a b c : ℤ) → leb_ℤ a b ≡ true → leb_ℤ b c ≡ true → leb_ℤ a c ≡ true
leb_ℤ_trans a b c h k = ground arith

ltb_ℤ-leb_ℤ : (a b : ℤ) → ltb_ℤ a b ≡ true → leb_ℤ a b ≡ true
ltb_ℤ-leb_ℤ a b h = ground arith

not_leb_ℤ : (a b : ℤ) → leb_ℤ a b ≡ false → ltb_ℤ b a ≡ true
not_leb_ℤ a b h = ground arith

leb_ℤ_refl : (a : ℤ) → leb_ℤ a a ≡ true
leb_ℤ_refl a = ground arith

-- A report that is no earlier than the latest one so far is the latest with them.
IsLatest-later :
    (found hit : Hit) (reports : List Hit)
    → IsLatest found reports
    → leb_ℤ found.detected_at_ms hit.detected_at_ms ≡ true
    → IsLatest hit (reports ++ (hit ∷ []))
IsLatest-later found hit reports (before, after, same, low, strict) h = (
  reports,
  [],
  refl,
  rw same (
      All-append (λ x. leb_ℤ x.detected_at_ms hit.detected_at_ms ≡ true) before (found ∷ after)
        (All-mono (λ x. leb_ℤ x.detected_at_ms found.detected_at_ms ≡ true)
          (λ x. leb_ℤ x.detected_at_ms hit.detected_at_ms ≡ true) before
          (λ x k. leb_ℤ_trans x.detected_at_ms found.detected_at_ms hit.detected_at_ms k h) low)
        (
          h,
          All-mono (λ x. ltb_ℤ x.detected_at_ms found.detected_at_ms ≡ true)
              (λ x. leb_ℤ x.detected_at_ms hit.detected_at_ms ≡ true) after
              (λ x k.
                leb_ℤ_trans x.detected_at_ms found.detected_at_ms hit.detected_at_ms
                  (ltb_ℤ-leb_ℤ x.detected_at_ms found.detected_at_ms k) h)
              strict,
        )),
  tt,
)

-- An earlier report leaves the latest one as it is.
IsLatest-earlier :
    (found hit : Hit) (reports : List Hit)
    → IsLatest found reports
    → leb_ℤ found.detected_at_ms hit.detected_at_ms ≡ false
    → IsLatest found (reports ++ (hit ∷ []))
IsLatest-earlier found hit reports (before, after, same, low, strict) h = (
  before,
  after ++ (hit ∷ []),
  rw same (append_assoc before (found ∷ after) (hit ∷ [])),
  low,
  All-append (λ x. ltb_ℤ x.detected_at_ms found.detected_at_ms ≡ true) after (hit ∷ []) strict
      (not_leb_ℤ found.detected_at_ms hit.detected_at_ms h, tt),
)

latest-IsLatest :
    (found : Hit) (done hits : List Hit)
    → IsLatest found done
    → (hit : Hit) × (latest (some found) hits ≡ some hit) × IsLatest hit (done ++ hits)
latest-IsLatest found done [] h = (found, refl, rw (append-[] done) h)
latest-IsLatest found done (x ∷ hits) h =
    elim (Bool-cases (leb_ℤ found.detected_at_ms x.detected_at_ms)) [
      | inl e ↦
          rw (e, sym (append_assoc done (x ∷ []) hits))
            (latest-IsLatest x (done ++ (x ∷ [])) hits (IsLatest-later found x done h e))
      | inr e ↦
          rw (e, sym (append_assoc done (x ∷ []) hits))
            (latest-IsLatest found (done ++ (x ∷ [])) hits (IsLatest-earlier found x done h e))
    ]

-- What is kept for a block, by its reports: nothing where there is none, else the latest.
abbrev pub IsKept : Option Hit → List Hit → Type 0
IsKept kept [] = kept ≡ none
IsKept kept (report ∷ reports) = (hit : Hit) × (kept ≡ some hit) × IsLatest hit (report ∷ reports)

latest-IsKept : (reports : List Hit) → IsKept (latest none reports) reports
latest-IsKept [] = refl
latest-IsKept (report ∷ reports) =
    latest-IsLatest report (report ∷ []) reports ([], [], refl, tt, tt)

-- The reports that are recorded are the values of a map with each block once, and no empty name. For a block that no
-- report names the map has nothing; for one that is named, but for space, it has the latest of its reports, the last
-- in the list of those at the same time, with the block's id and, where it names no turn, the turn of the request.
pub dedupe_hits-latest :
    (turn_id : String) (hits : List Hit)
    → (kept : Dict Hit) × (dedupe_hits turn_id hits ≡ values kept)
      × HasKeysOnce kept
      × (lookup "" kept ≡ none)
      × ((block_id : String)
          → str_eq block_id "" ≡ false
          → IsKept (lookup block_id kept) (reports_of turn_id block_id hits))
unfolding dedupe_hits HasKeysOnce lookup
dedupe_hits-latest turn_id hits = (
  dedupe_from turn_id hits [],
  refl,
  dedupe_from-HasKeysOnce turn_id hits [] tt,
  lookup-dedupe_from-empty turn_id hits [] refl,
  λ block_id named.
      rw
        (lookup-dedupe_from turn_id block_id hits [] named, tidied-reports_of turn_id block_id hits)
        (latest-IsKept (reports_of turn_id block_id hits)),
)
