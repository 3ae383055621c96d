-- ===== src/Session/Service/Transcripts.antt =====
-- internal/session/service.go: what an accepted transcript consists of.
use fluentwork_backend.Session.Types.{Utterance}
use fluentwork_backend.Session.Service.{
  EndUtteranceItem, ServiceError, has_speaker, utterance_of, utterance_problem, normalize_each,
  normalize_end_utterances, max_utterances,
}
use fluentwork_backend.Base.{
  ℕ, suc, ◌*◌, ◌≤◌, String, ◌≡◌, refl, ◌∙◌, subst, inl, inr, true, false, none, List, [], ◌∷◌,
  arith, str_eq, ltb, Bool-cases, Option-cases, ℤ, pos, ◌≤ℤ◌, length, All, any, trim_space,
  trim_space_idem, Result, ok, err, eq_ℤ, utf8_length, if_false,
}

-- A row as it may be stored.
pub record IsUtterance (session_id : String) (u : Utterance) : Type 0 where
  pub session : u.session_id ≡ session_id
  pub first : pos 1 ≤ℤ u.seq
  pub last : u.seq ≤ℤ pos max_utterances
  pub speaker : has_speaker u.speaker ≡ true
  pub trimmed : trim_space u.text ≡ u.text
  pub spoken : str_eq u.text "" ≡ false
  pub bounded : utf8_length u.text ≤ 32 * 1024

-- No number stands twice, and none of those given first stands at all.
abbrev pub AreNew : List ℤ → List ℤ → Type 0
AreNew seen [] = Unit
AreNew seen (seq ∷ seqs) = (any (eq_ℤ seq) seen ≡ false) × AreNew (seq ∷ seen) seqs

abbrev pub seqs_of : List Utterance → List ℤ
seqs_of [] = []
seqs_of (u ∷ rows) = u.seq ∷ seqs_of rows

abbrev pub item_seqs : List EndUtteranceItem → List ℤ
item_seqs [] = []
item_seqs (item ∷ items) = item.seq ∷ item_seqs items

-- A transcript: valid rows, numbered as the items are and without a repeat.
abbrev pub IsTranscript : String → List ℤ → List EndUtteranceItem → List Utterance → Type 0
IsTranscript session_id seen items rows =
    All (IsUtterance session_id) rows
    × (seqs_of rows ≡ item_seqs items)
    × AreNew seen (seqs_of rows)

accepted-IsUtterance :
    (session_id id : String) (now : ℕ) (seen : List ℤ) (item : EndUtteranceItem)
    → utterance_problem seen item ≡ none
    → IsUtterance session_id (utterance_of session_id now id item)
      × (any (eq_ℤ item.seq) seen ≡ false)
unfolding utterance_problem
accepted-IsUtterance session_id id now seen item h = (
  record {
    session = refl;
    first = ground arith;
    last = ground arith;
    speaker = ground arith;
    trimmed = trim_space_idem item.text;
    spoken = ground arith;
    bounded = ground arith;
  },
  ground arith,
)

-- What holds of a result, if there is one.
abbrev Accepts : (List Utterance → Type 0) → Result ServiceError (List Utterance) → Type 0
Accepts P (ok rows) = P rows
Accepts P (err e) = Unit

add_row-Accepts :
    (session_id : String) (seen : List ℤ) (item : EndUtteranceItem) (items : List EndUtteranceItem)
    (row : Utterance) (rest : Result ServiceError (List Utterance))
    → IsUtterance session_id row
    → row.seq ≡ item.seq
    → any (eq_ℤ row.seq) seen ≡ false
    → Accepts (IsTranscript session_id (row.seq ∷ seen) items) rest
    → Accepts
        (IsTranscript session_id seen (item ∷ items))
        (elim rest [ err e ↦ err e | ok rows ↦ ok (row ∷ rows) ])
add_row-Accepts session_id seen item items row (err e) valid same fresh h = tt
add_row-Accepts session_id seen item items row (ok rows) valid same fresh (all, seqs, new) =
    ((valid, all), cc (same, seqs), (fresh, new))

normalize_each-Accepts :
    (new_id : ℕ → String) (session_id : String) (now n : ℕ) (seen : List ℤ)
    (items : List EndUtteranceItem)
    → Accepts
        (IsTranscript session_id seen items)
        (normalize_each new_id session_id now n seen items)
unfolding normalize_each
normalize_each-Accepts new_id session_id now n seen [] = (tt, refl, tt)
normalize_each-Accepts new_id session_id now n seen (item ∷ items) =
    elim (Option-cases (utterance_problem seen item)) [
      | inr (msg, e) ↦ rw (e, normalize_each) tt
      | inl e ↦
          rw (e, normalize_each)
            (add_row-Accepts session_id seen item items
              (utterance_of session_id now (new_id n) item)
              (normalize_each new_id session_id now (suc n) (item.seq ∷ seen) items)
              (accepted-IsUtterance session_id (new_id n) now seen item e).0 refl
              (accepted-IsUtterance session_id (new_id n) now seen item e).1
              (normalize_each-Accepts new_id session_id now (suc n) (item.seq ∷ seen) items))
    ]

-- A transcript that is accepted has at most 500 rows, one for each item of the request and in its
-- order; each is of this session, numbered from 1 to 500 with no number twice, spoken by the user or the
-- AI, and holds a trimmed text that is not blank and has at most 32 KiB.
pub normalize_end_utterances-IsTranscript :
    (new_id : ℕ → String) (n : ℕ) (session_id : String) (items : List EndUtteranceItem) (now : ℕ)
    (rows : List Utterance)
    → normalize_end_utterances new_id n session_id items now ≡ ok rows
    → IsTranscript session_id [] items rows × (length items ≤ 500)
unfolding normalize_end_utterances
normalize_end_utterances-IsTranscript new_id n session_id items now rows h =
    elim (Bool-cases (ltb max_utterances (length items))) [
      | inl e ↦ absurd (cc (rw e at h))
      | inr e ↦ (
        subst (Accepts (IsTranscript session_id [] items)) (rw e at h)
            (normalize_each-Accepts new_id session_id now n [] items),
        ground arith,
      )
    ]

-- An item that the service has no reason to refuse, but for its number among the others.
pub record IsItem (item : EndUtteranceItem) : Type 0 where
  pub first : pos 1 ≤ℤ item.seq
  pub last : item.seq ≤ℤ pos max_utterances
  pub speaker : has_speaker (trim_space item.speaker) ≡ true
  pub spoken : str_eq (trim_space item.text) "" ≡ false
  pub bounded : utf8_length (trim_space item.text) ≤ 32 * 1024

no_problem :
    (seen : List ℤ) (item : EndUtteranceItem)
    → IsItem item
    → any (eq_ℤ item.seq) seen ≡ false
    → utterance_problem seen item ≡ none
unfolding utterance_problem
no_problem seen item h fresh = ground arith

normalize_each_accepts :
    (new_id : ℕ → String) (session_id : String) (now n : ℕ) (seen : List ℤ)
    (items : List EndUtteranceItem)
    → All IsItem items
    → AreNew seen (item_seqs items)
    → (rows : List Utterance) × (normalize_each new_id session_id now n seen items ≡ ok rows)
unfolding normalize_each
normalize_each_accepts new_id session_id now n seen [] h new = ([], refl)
normalize_each_accepts new_id session_id now n seen (item ∷ items) (valid, h) (fresh, new) =
    let (rows, e) =
      normalize_each_accepts new_id session_id now (suc n) (item.seq ∷ seen) items h new in
    (
      utterance_of session_id now (new_id n) item ∷ rows,
      rw (no_problem seen item valid fresh, e, normalize_each),
    )

-- A transcript of at most 500 items is accepted when each is numbered from 1 to 500 with no number
-- twice, spoken by the user or the AI, and holds a text that is not blank and at most 32 KiB long.
pub normalize_end_utterances_accepts :
    (new_id : ℕ → String) (n : ℕ) (session_id : String) (items : List EndUtteranceItem) (now : ℕ)
    → length items ≤ 500
    → All IsItem items
    → AreNew [] (item_seqs items)
    → (rows : List Utterance) × (normalize_end_utterances new_id n session_id items now ≡ ok rows)
      × IsTranscript session_id [] items rows
unfolding normalize_end_utterances
normalize_end_utterances_accepts new_id n session_id items now few valid new =
    let (rows, e) = normalize_each_accepts new_id session_id now n [] items valid new in
    (
      rows,
      if_false (ltb max_utterances (length items)) _ _ (ground arith) ∙ e,
      subst (Accepts (IsTranscript session_id [] items)) e
          (normalize_each-Accepts new_id session_id now n [] items),
    )
