-- ===== src/Drill/Appeals/Once.antt =====
-- internal/drill/service.go: an attempt is appealed once.
use fluentwork_backend.Base.{
  ℕ, String, ◌≡◌, refl, sym, ap, ◌∙◌, subst, inl, inr, Bool, true, false, not, ◌||◌, none, some,
  List, [], ◌∷◌, arith, str_eq, is_some, Bool-cases, Option-cases, ℤ, pos, pos_part, leb_ℤ,
  trim_space, Result, ok, err,
}
use fluentwork_backend.Corpus.Store.{MemoryStore, peek_block}
use fluentwork_backend.Drill.Records.{
  Record, MemoryRecordStore, is_record, find_record, mark_record, mark_appealed, get_record,
}
use fluentwork_backend.Drill.Appeals.{
  AppealResponse, DrillError, fill_appeal_block_state, restore_snapshot, stamp_appeal, appeal,
  repeated, response_to,
}

-- The attempt that a user means by an id has been appealed.
abbrev IsAppealed : String → ℕ → List Record → Type 0
IsAppealed user_id record_id records =
    (rec : Record) × (find_record user_id record_id records ≡ some rec)
    × (is_some rec.appealed_at ≡ true)

some_inj : {A : Type 0} {x y : A} → some x ≡ some y → x ≡ y
some_inj h = cc h

is_record-id :
    (user_id : String) (record_id : ℕ) (rec : Record)
    → is_record user_id record_id rec ≡ true
    → rec.id ≡ record_id
is_record-id user_id record_id rec h = ground arith

find_record-id :
    (user_id : String) (record_id : ℕ) (records : List Record) (rec : Record)
    → find_record user_id record_id records ≡ some rec
    → rec.id ≡ record_id
unfolding find_record
find_record-id user_id record_id [] rec h = absurd (cc h)
find_record-id user_id record_id (r ∷ records) rec h =
    elim (Bool-cases (is_record user_id record_id r)) [
      | inl e ↦
          let same : r ≡ rec = some_inj (rw e at h) in
          ap (λ x. x.id) (sym same) ∙ is_record-id user_id record_id r e
      | inr e ↦ find_record-id user_id record_id records rec (rw e at h)
    ]

-- An attempt further on in the ledger stands so after one that is passed over.
IsAppealed-∷ :
    (user_id : String) (record_id : ℕ) (r : Record) (records : List Record)
    → is_record user_id record_id r ≡ false
    → IsAppealed user_id record_id records
    → IsAppealed user_id record_id (r ∷ records)
unfolding find_record
IsAppealed-∷ user_id record_id r records e (rec, found, stamped) = rw e (rec, found, stamped)

IsAppealed-first :
    (user_id : String) (record_id : ℕ) (r : Record) (records : List Record)
    → is_record user_id record_id r ≡ true
    → is_some r.appealed_at ≡ true
    → IsAppealed user_id record_id (r ∷ records)
unfolding find_record
IsAppealed-first user_id record_id r records e stamped = rw e (r, refl, stamped)

-- The stamp leaves the attempt stamped, whichever call stamped it.
mark_record-IsAppealed :
    (user_id : String) (record_id at : ℕ) (records : List Record) (marked : Bool × List Record)
    → mark_record user_id record_id at records ≡ some marked
    → IsAppealed user_id record_id marked.1
unfolding mark_record
mark_record-IsAppealed user_id record_id at [] marked h = absurd (cc h)
mark_record-IsAppealed user_id record_id at (r ∷ records) marked h =
    elim (Bool-cases (is_record user_id record_id r)) [
      | inl e ↦ elim (Bool-cases (is_some r.appealed_at)) [
        | inl f ↦
            subst (λ m. IsAppealed user_id record_id m.1) (some_inj (rw (e, f) at h))
              (IsAppealed-first user_id record_id r records e f)
        | inr f ↦
            subst (λ m. IsAppealed user_id record_id m.1) (some_inj (rw (e, f) at h))
              (IsAppealed-first user_id record_id (record r { appealed_at = some at }) records e
                refl)
      ]
      | inr e ↦ elim (Option-cases (mark_record user_id record_id at records)) [
        | inl f ↦ absurd (cc (rw (e, f) at h))
        | inr (m, f) ↦
            subst (λ m. IsAppealed user_id record_id m.1) (some_inj (rw (e, f) at h))
              (IsAppealed-∷ user_id record_id r m.1 e
                (mark_record-IsAppealed user_id record_id at records m f))
      ]
    ]

mark_appealed-none :
    (user_id : String) (record_id at : ℕ) (r : MemoryRecordStore)
    → mark_record user_id record_id at r.records ≡ none
    → mark_appealed user_id record_id at r ≡ (none, r)
unfolding mark_appealed
mark_appealed-none user_id record_id at r h = rw (mark_appealed, h) refl

mark_appealed-some :
    (user_id : String) (record_id at : ℕ) (r : MemoryRecordStore) (m : Bool × List Record)
    → mark_record user_id record_id at r.records ≡ some m
    → mark_appealed user_id record_id at r ≡ (some m.0, record r { records = m.1 })
unfolding mark_appealed
mark_appealed-some user_id record_id at r m h = rw (mark_appealed, h) refl

-- An appeal that is answered leaves the attempt stamped.
stamp_appeal-IsAppealed :
    (user_id : String) (rec : Record) (now : ℕ) (r : MemoryRecordStore)
    (outcome : Result DrillError AppealResponse × MemoryStore) (answer : AppealResponse)
    (after : MemoryRecordStore × MemoryStore)
    → stamp_appeal user_id rec now r outcome ≡ (ok answer, after)
    → IsAppealed user_id rec.id after.0.records
unfolding stamp_appeal
stamp_appeal-IsAppealed user_id rec now r (err e, s) answer after h = absurd (cc h)
stamp_appeal-IsAppealed user_id rec now r (ok resp, s) answer after h =
    elim (Option-cases (mark_record user_id rec.id now r.records)) [
      | inl f ↦ absurd (cc (rw (stamp_appeal, mark_appealed-none user_id rec.id now r f) at h))
      | inr (m, f) ↦
          subst (λ x. IsAppealed user_id rec.id x.0.records)
            (ap (λ x. x.1) (rw (stamp_appeal, mark_appealed-some user_id rec.id now r m f) at h))
            (subst (λ x. IsAppealed user_id rec.id x.1.records)
              (sym (mark_appealed-some user_id rec.id now r m f))
              (mark_record-IsAppealed user_id rec.id now r.records m f))
    ]

-- The state of the block does not change what an answer says of the appeal.
fill_appeal_block_state-told :
    (user_id : String) (resp : AppealResponse) (s : MemoryStore)
    → ((fill_appeal_block_state user_id resp s).already_appealed ≡ resp.already_appealed)
      × ((fill_appeal_block_state user_id resp s).restored ≡ resp.restored)
unfolding fill_appeal_block_state
fill_appeal_block_state-told user_id resp s = elim (Option-cases (peek_block resp.block_id s)) [
  | inl e ↦ rw (fill_appeal_block_state, e) (refl, refl)
  | inr (block, e) ↦
      elim (Bool-cases (not (str_eq block.user_id user_id) || is_some block.deleted_at)) [
        | inl f ↦ rw (fill_appeal_block_state, e, f) (refl, refl)
        | inr f ↦ rw (fill_appeal_block_state, e, f) (refl, refl)
      ]
]

-- What an answered appeal leaves behind, whether it was the first or not.
appeal-IsAppealed :
    (user_id : String) (record_id : ℤ) (now : ℕ) (r : MemoryRecordStore) (s : MemoryStore)
    (answer : AppealResponse) (after : MemoryRecordStore × MemoryStore)
    → appeal user_id record_id now r s ≡ (ok answer, after)
    → (str_eq (trim_space user_id) "" ≡ false)
      × (leb_ℤ record_id (pos 0) ≡ false)
      × IsAppealed (trim_space user_id) (pos_part record_id) after.0.records
unfolding appeal get_record
appeal-IsAppealed user_id record_id now r s answer after h =
    elim (Bool-cases (str_eq (trim_space user_id) "")) [
      | inl e ↦ absurd (cc (rw e at h))
      | inr e ↦ elim (Bool-cases (leb_ℤ record_id (pos 0))) [
        | inl f ↦ absurd (cc (rw (e, f) at h))
        | inr f ↦
            elim (Option-cases (find_record (trim_space user_id) (pos_part record_id) r.records)) [
              | inl g ↦ absurd (cc (rw (e, f, g) at h))
              | inr (rec, g) ↦ elim (Bool-cases (is_some rec.appealed_at)) [
                | inl k ↦ (
                  e,
                  f,
                  subst (λ x. IsAppealed (trim_space user_id) (pos_part record_id) x.0.records)
                      (ap (λ x. x.1) (rw (e, f, g, k) at h)) (rec, g, k),
                )
                | inr k ↦ (
                  e,
                  f,
                  subst (λ id. IsAppealed (trim_space user_id) id after.0.records)
                      (find_record-id (trim_space user_id) (pos_part record_id) r.records rec g)
                      (stamp_appeal-IsAppealed (trim_space user_id) rec now r
                        (restore_snapshot (trim_space user_id) rec now r s) answer after
                        (rw (e, f, g, k) at h)),
                )
              ]
            ]
      ]
    ]

-- Once an appeal of an attempt was answered, a second one of the same user and attempt, at any time, is answered as
-- appealed already, restores nothing, and leaves the ledger and the corpus as they are.
pub appeal-once :
    (user_id : String) (record_id : ℤ) (now later : ℕ) (r : MemoryRecordStore) (s : MemoryStore)
    (answer : AppealResponse) (after : MemoryRecordStore × MemoryStore)
    → appeal user_id record_id now r s ≡ (ok answer, after)
    → (again : AppealResponse) × (appeal user_id record_id later after.0 after.1
        ≡ (ok again, after))
      × (again.already_appealed ≡ true)
      × (again.restored ≡ false)
unfolding appeal get_record
appeal-once user_id record_id now later r s answer after h =
    let (named, numbered, kept) = appeal-IsAppealed user_id record_id now r s answer after h in
    let told =
      fill_appeal_block_state-told (trim_space user_id)
        (record (response_to kept.0) { already_appealed = true; note = "already appealed" })
        after.1 in
    (
      repeated (trim_space user_id) kept.0 after.1,
      rw (named, numbered, kept.1, kept.2) refl,
      told.0,
      told.1,
    )
