-- ===== src/VoicePoc/Wer.antt =====
-- internal/voicepoc/wer.go: the word error rate of a transcription. unicode's tables of letters, digits
-- and lower case are parameters.
pub mod Table
pub mod Walk
pub mod Alignment
use Prim.Native.Char.{Char, code}
use Prim.Native.String.{◌++◌ as str_append}
use fluentwork_backend.Base.{
  ℕ, zero, suc, ◌+◌, String, Bool, ◌&&◌, ◌||◌, List, [], ◌∷◌, str_eq, ◌==◌, if◌then◌else◌, length,
  min, get_or,
}

-- `WERResult`
pub record WerResult : Type 0 where
  pub substitutions : ℕ
  pub deletions : ℕ
  pub insertions : ℕ
  pub correct : ℕ
  pub reference_length : ℕ

-- `Errors`
abbrev pub errors : WerResult → ℕ
errors r = r.substitutions + r.deletions + r.insertions

module _ (is_word : Char → Bool) (to_lower : String → String) where
  -- `flush`: the tokens so far, from the last, with the current one, whose runes stand from the first.
  abbrev flush : String → List String → List String
  flush current tokens = if str_eq current "" then tokens else to_lower current ∷ tokens

  -- The loop of `TokenizeWER`, over the runes that are left. A token is kept whole before the rest.
  unfoldable pub tokens_from : String → String → List String
  tokens_from current String.[] = flush current []
  tokens_from current (String.◌∷◌ c text) =
      let longer = tokens_from (str_append current (String.◌∷◌ c String.[])) text in
      let same = tokens_from current text in
      let next = tokens_from "" text in
      if is_word c
      then longer
      else if code c == 0x27 || code c == 0x2019
      then same
      else flush current next

  -- `TokenizeWER`
  unfoldable pub tokenize_wer : String → List String
  unfolding tokens_from
  tokenize_wer text = tokens_from "" text

-- A row of the table after its first cell: the rest of the row above, with the cell above and to the
-- left, and the cell to the left.
unfoldable pub fill_row : String → List String → List ℕ → ℕ → List ℕ
fill_row word (other ∷ hyp) (diagonal ∷ above ∷ row) left =
    let cell =
      if str_eq word other then diagonal else min (min (diagonal + 1) (above + 1)) (left + 1) in
    cell ∷ fill_row word hyp (above ∷ row) cell
fill_row word hyp row left = []

-- The rows of the table below a row, the i-th of them.
unfoldable pub fill_rows : List String → List String → ℕ → List ℕ → List (List ℕ)
unfolding fill_row
fill_rows [] hyp i row = row ∷ []
fill_rows (word ∷ ref) hyp i row =
    row ∷ fill_rows ref hyp (suc i) (suc i ∷ fill_row word hyp row (suc i))

-- The first row: 0, 1, ... up to the number of words.
unfoldable pub first_row : ℕ → List String → List ℕ
first_row j [] = j ∷ []
first_row j (other ∷ hyp) = j ∷ first_row (suc j) hyp

-- `cost`
unfoldable pub cost_table : List String → List String → List (List ℕ)
unfolding fill_rows first_row
cost_table ref hyp = fill_rows ref hyp 0 (first_row 0 hyp)

-- `cost[i][j]`
abbrev pub cell : List (List ℕ) → ℕ → ℕ → ℕ
cell cost i j = get_or (get_or cost i []) j 0

abbrev pub count_correct : WerResult → WerResult
count_correct r = record r { correct = r.correct + 1 }

abbrev pub count_substitution : WerResult → WerResult
count_substitution r = record r { substitutions = r.substitutions + 1 }

abbrev pub count_deletion : WerResult → WerResult
count_deletion r = record r { deletions = r.deletions + 1 }

abbrev pub count_insertion : WerResult → WerResult
count_insertion r = record r { insertions = r.insertions + 1 }

-- The walk back over the table. `ref[:i]` and `hyp[:j]` stand from their last word, so that i and j
-- are their lengths; the fuel is at least i + j. Where no branch but the last is taken and no word of
-- the hypothesis is left, Go would step to j = -1; `walk-ends` shows that this does not happen on a `cost_table`.
unfoldable pub walk : List (List ℕ) → ℕ → List String → List String → WerResult → WerResult
walk cost zero ref hyp r = r
walk cost (suc fuel) [] [] r = r
walk cost (suc fuel) [] (other ∷ hyp) r = walk cost fuel [] hyp (count_insertion r)
walk cost (suc fuel) (word ∷ ref) [] r =
    let deleted = walk cost fuel ref [] (count_deletion r) in
    if cell cost (suc (length ref)) 0 == cell cost (length ref) 0 + 1 then deleted else r
walk cost (suc fuel) (word ∷ ref) (other ∷ hyp) r =
    let here = cell cost (suc (length ref)) (suc (length hyp)) in
    let diagonal = cell cost (length ref) (length hyp) in
    let above = cell cost (length ref) (suc (length hyp)) in
    let matched = walk cost fuel ref hyp (count_correct r) in
    let substituted = walk cost fuel ref hyp (count_substitution r) in
    let deleted = walk cost fuel ref (other ∷ hyp) (count_deletion r) in
    let inserted = walk cost fuel (word ∷ ref) hyp (count_insertion r) in
    if str_eq word other && here == diagonal
    then matched
    else if here == diagonal + 1
    then substituted
    else if here == above + 1
    then deleted
    else inserted

abbrev pub reverse_onto {ℓ} : {A : Type ℓ} → List A → List A → List A
reverse_onto [] ys = ys
reverse_onto (x ∷ xs) ys = reverse_onto xs (x ∷ ys)

abbrev pub no_counts : ℕ → WerResult
no_counts n = record {
  substitutions = 0;
  deletions = 0;
  insertions = 0;
  correct = 0;
  reference_length = n;
}

-- `ScoreWER`, from the tokens on.
unfoldable pub score_tokens : List String → List String → WerResult
unfolding walk cost_table
score_tokens ref hyp =
    if length ref == 0
    then no_counts (length ref)
    else if length hyp == 0
    then record (no_counts (length ref)) { deletions = length ref }
    else walk (cost_table ref hyp) (length ref + length hyp) (reverse_onto ref [])
        (reverse_onto hyp []) (no_counts (length ref))

-- `ScoreWER`
unfoldable pub score_wer : (Char → Bool) → (String → String) → String → String → WerResult
score_wer is_word to_lower reference hypothesis =
    score_tokens (tokenize_wer is_word to_lower reference)
      (tokenize_wer is_word to_lower hypothesis)
