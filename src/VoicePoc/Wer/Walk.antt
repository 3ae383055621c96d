-- ===== src/VoicePoc/Wer/Walk.antt =====
-- internal/voicepoc/wer.go: the walk back over the table of `ScoreWER` reads off an alignment with the least
-- errors.
use Prim.Native.Char.{Char}
use fluentwork_backend.Base.{
  ℕ, zero, suc, ◌+◌, ◌≤◌, String, ◌≡◌, refl, ◌∙◌, inl, inr, Bool, true, false, ◌&&◌, List, [], ◌∷◌,
  ◌++◌, arith, str_eq, ◌==◌, if◌then◌else◌, Bool-cases, length, min, append-[],
}
use fluentwork_backend.VoicePoc.Wer.{
  WerResult, errors, no_counts, reverse_onto, count_correct, count_substitution, count_deletion,
  count_insertion, walk, cost_table, cell, score_tokens, tokenize_wer, score_wer,
}
use fluentwork_backend.VoicePoc.Wer.Table.{lev, cost_table_lem}
use fluentwork_backend.VoicePoc.Wer.Alignment.{Alignment, lev-least}

-- The branch that the walk takes, by the cells it reads: the stuck one is not taken.
branch {ℓ} :
    (Q : WerResult → Type ℓ) (x y : String) (here diagonal above left : ℕ)
    (matched substituted deleted inserted : WerResult)
    → here ≡ (if str_eq x y then diagonal else min (min (diagonal + 1) (above + 1)) (left + 1))
    → (str_eq x y ≡ true → here ≡ diagonal → Q matched)
    → (str_eq x y ≡ false → here ≡ diagonal + 1 → Q substituted)
    → (here ≡ above + 1 → Q deleted)
    → (here ≡ left + 1 → Q inserted)
    → Q (
        if str_eq x y && here == diagonal
        then matched
        else if here == diagonal + 1
        then substituted
        else if here == above + 1
        then deleted
        else inserted)
branch Q x y here diagonal above left matched substituted deleted inserted cell_eq on_match on_sub
      on_del on_ins =
    elim (Bool-cases (str_eq x y)) [
      | inl e ↦
          let same : here ≡ diagonal = ground arith in
          let both : (str_eq x y && here == diagonal) ≡ true = ground arith in
          rw both (on_match e same)
      | inr e ↦
          let none_eq : (str_eq x y && here == diagonal) ≡ false = rw e in
          rw none_eq (elim (Bool-cases (here == diagonal + 1)) [
            | inl f ↦ rw f (on_sub e (ground arith))
            | inr f ↦ rw f (elim (Bool-cases (here == above + 1)) [
              | inl g ↦ rw g (on_del (ground arith))
              | inr g ↦ rw g (on_ins (ground arith))
            ])
          ])
    ]

lev-[] : (xs : List String) → lev xs [] ≡ length xs
unfolding lev
lev-[] [] = refl
lev-[] (x ∷ xs) = refl

walk_lem :
    (n fuel : ℕ) (xs rest ys rest_hyp : List String) (r : WerResult)
    → length xs + length ys ≤ fuel
    → Alignment n rest rest_hyp r
    → let ref = reverse_onto xs rest in
      let hyp = reverse_onto ys rest_hyp in
      let final = walk (cost_table ref hyp) fuel xs ys r in
      Alignment n ref hyp final × (errors final ≡ errors r + lev xs ys)
unfolding walk lev
walk_lem n zero [] rest [] rest_hyp r enough h = (h, omega arith)
walk_lem n zero (x ∷ xs) rest ys rest_hyp r enough h = absurd (omega (arith, enough))
walk_lem n zero [] rest (y ∷ ys) rest_hyp r enough h = absurd (omega (arith, enough))
walk_lem n (suc fuel) [] rest [] rest_hyp r enough h = (h, omega arith)
walk_lem n (suc fuel) [] rest (y ∷ ys) rest_hyp r enough h =
    let after =
      walk_lem n fuel [] rest ys (y ∷ rest_hyp) (count_insertion r) (omega (arith, enough))
        (Alignment.inserted h) in
    (after.0, omega (arith, after.1))
walk_lem n (suc fuel) (x ∷ xs) rest [] rest_hyp r enough h =
    let after =
      walk_lem n fuel xs (x ∷ rest) [] rest_hyp (count_deletion r) (omega (arith, enough))
        (Alignment.deleted h) in
    let cost = cost_table (reverse_onto xs (x ∷ rest)) rest_hyp in
    let taken : (cell cost (suc (length xs)) 0 == cell cost (length xs) 0 + 1) ≡ true = ground (
      arith,
      cost_table_lem (x ∷ xs) rest [] rest_hyp,
      cost_table_lem xs (x ∷ rest) [] rest_hyp,
      lev-[] xs,
    ) in
    rw taken (after.0, omega (arith, after.1, lev-[] xs))
walk_lem n (suc fuel) (x ∷ xs) rest (y ∷ ys) rest_hyp r enough h =
    let ref = reverse_onto xs (x ∷ rest) in
    let hyp = reverse_onto ys (y ∷ rest_hyp) in
    let cost = cost_table ref hyp in
    let c_here = cost_table_lem (x ∷ xs) rest (y ∷ ys) rest_hyp in
    let c_diagonal = cost_table_lem xs (x ∷ rest) ys (y ∷ rest_hyp) in
    let c_above = cost_table_lem xs (x ∷ rest) (y ∷ ys) rest_hyp in
    let c_left = cost_table_lem (x ∷ xs) rest ys (y ∷ rest_hyp) in
    branch (λ final. Alignment n ref hyp final × (errors final ≡ errors r + lev (x ∷ xs) (y ∷ ys)))
      x y (cell cost (suc (length xs)) (suc (length ys))) (cell cost (length xs) (length ys))
      (cell cost (length xs) (suc (length ys))) (cell cost (suc (length xs)) (length ys)) _ _ _ _
      (rw (c_here, c_diagonal, c_above, c_left) refl)
      (λ e f.
        let after =
          walk_lem n fuel xs (x ∷ rest) ys (y ∷ rest_hyp) (count_correct r) (omega (arith, enough))
            (Alignment.correct_word e h) in
        (after.0, omega (arith, after.1, f, c_here, c_diagonal)))
      (λ e f.
        let after =
          walk_lem n fuel xs (x ∷ rest) ys (y ∷ rest_hyp) (count_substitution r)
            (omega (arith, enough)) (Alignment.substituted e h) in
        (after.0, omega (arith, after.1, f, c_here, c_diagonal)))
      (λ f.
        let after =
          walk_lem n fuel xs (x ∷ rest) (y ∷ ys) rest_hyp (count_deletion r) (omega (arith, enough))
            (Alignment.deleted h) in
        (after.0, omega (arith, after.1, f, c_here, c_above)))
      (λ f.
        let after =
          walk_lem n fuel (x ∷ xs) rest ys (y ∷ rest_hyp) (count_insertion r)
            (omega (arith, enough)) (Alignment.inserted h) in
        (after.0, omega (arith, after.1, f, c_here, c_left)))

length-reverse_onto : (xs ys : List String) → length (reverse_onto xs ys) ≡ length xs + length ys
length-reverse_onto [] ys = omega arith
length-reverse_onto (x ∷ xs) ys = omega (arith, length-reverse_onto xs (x ∷ ys))

reverse_onto-twice :
    (xs ys zs : List String) → reverse_onto (reverse_onto xs ys) zs ≡ reverse_onto ys (xs ++ zs)
reverse_onto-twice [] ys zs = refl
reverse_onto-twice (x ∷ xs) ys zs = reverse_onto-twice xs (x ∷ ys) zs

reversed_back : (xs : List String) → reverse_onto (reverse_onto xs []) [] ≡ xs
reversed_back xs = reverse_onto-twice xs [] [] ∙ append-[] xs

deletions_only :
    (n : ℕ) (ref : List String)
    → Alignment n ref [] (record (no_counts n) { deletions = length ref })
deletions_only n [] = Alignment.nothing
deletions_only n (x ∷ ref) =
    let one_more : suc (length ref) ≡ length ref + 1 = omega arith in
    rw one_more (Alignment.deleted (deletions_only n ref))

walked :
    (ref hyp : List String)
    → let final =
        walk
          (cost_table ref hyp)
          (length ref + length hyp)
          (reverse_onto ref [])
          (reverse_onto hyp [])
          (no_counts (length ref)) in
      Alignment (length ref) ref hyp final
      × (errors final ≡ lev (reverse_onto ref []) (reverse_onto hyp []))
walked ref hyp =
    let done =
      rw (reversed_back ref, reversed_back hyp) at
        (walk_lem (length ref) (length ref + length hyp) (reverse_onto ref []) []
          (reverse_onto hyp []) [] (no_counts (length ref))
          (omega (arith, length-reverse_onto ref [], length-reverse_onto hyp []))
          Alignment.nothing) in
    (done.0, omega (arith, done.1))

-- What the scores of two lists of words are, where the reference has a word: the counts of an alignment, and
-- no alignment has fewer errors.
score_tokens_lem :
    (ref hyp : List String)
    → (length ref == 0) ≡ false
    → Alignment (length ref) ref hyp (score_tokens ref hyp)
      × ((r : WerResult)
          → Alignment (length ref) ref hyp r
          → errors (score_tokens ref hyp) ≤ errors r)
unfolding score_tokens lev
score_tokens_lem ref [] h = rw h (
  deletions_only (length ref) ref,
  λ r a. omega (
    arith,
    lev-least (length ref) ref [] r a,
    lev-[] (reverse_onto ref []),
    length-reverse_onto ref [],
  ),
)
score_tokens_lem ref (y ∷ hyp) h =
    let done = walked ref (y ∷ hyp) in
    let spoken : (length (y ∷ hyp) == 0) ≡ false = ground arith in
    rw (h, spoken) (done.0, λ r a. omega (arith, done.1, lev-least (length ref) ref (y ∷ hyp) r a))

-- Where the reference has a word, the counts of `ScoreWER` are those of an alignment of the words of the two
-- texts, and no alignment of them has fewer errors.
pub score_wer-least :
    (is_word : Char → Bool) (to_lower : String → String) (reference hypothesis : String)
    → let ref = tokenize_wer is_word to_lower reference in
      let hyp = tokenize_wer is_word to_lower hypothesis in
      let score = score_wer is_word to_lower reference hypothesis in
      (length ref == 0) ≡ false
      → Alignment (length ref) ref hyp score
        × ((r : WerResult) → Alignment (length ref) ref hyp r → errors score ≤ errors r)
unfolding score_wer
score_wer-least is_word to_lower reference hypothesis h =
    score_tokens_lem (tokenize_wer is_word to_lower reference)
      (tokenize_wer is_word to_lower hypothesis) h

-- An alignment counts every word of both lists once.
Alignment-words :
    (n : ℕ) (ref hyp : List String) (r : WerResult)
    → Alignment n ref hyp r
    → (r.correct + r.substitutions + r.deletions ≡ length ref)
      × (r.correct + r.substitutions + r.insertions ≡ length hyp)
Alignment-words n [] [] _ Alignment.nothing = (omega arith, omega arith)
Alignment-words n _ _ _ (Alignment.correct_word e h) =
    let words = Alignment-words n _ _ _ h in (omega (arith, words.0), omega (arith, words.1))
Alignment-words n _ _ _ (Alignment.substituted e h) =
    let words = Alignment-words n _ _ _ h in (omega (arith, words.0), omega (arith, words.1))
Alignment-words n _ _ _ (Alignment.deleted h) =
    let words = Alignment-words n _ _ _ h in (omega (arith, words.0), omega (arith, words.1))
Alignment-words n _ _ _ (Alignment.inserted h) =
    let words = Alignment-words n _ _ _ h in (omega (arith, words.0), omega (arith, words.1))

-- On the table of two lists of words, the walk back ends with no word left of either list, within as many steps as
-- they have words: with at least this much fuel, each word of the reference is counted once as correct, substituted
-- or deleted, and each of the hypothesis once as correct, substituted or inserted.
pub walk-ends :
    (ref hyp : List String) (fuel : ℕ)
    → length ref + length hyp ≤ fuel
    → let r =
        walk
          (cost_table ref hyp)
          fuel
          (reverse_onto ref [])
          (reverse_onto hyp [])
          (no_counts (length ref)) in
      (r.correct + r.substitutions + r.deletions ≡ length ref)
      × (r.correct + r.substitutions + r.insertions ≡ length hyp)
walk-ends ref hyp fuel enough =
    let done =
      rw (reversed_back ref, reversed_back hyp) at
        (walk_lem (length ref) fuel (reverse_onto ref []) [] (reverse_onto hyp []) []
          (no_counts (length ref))
          (omega (arith, enough, length-reverse_onto ref [], length-reverse_onto hyp []))
          Alignment.nothing) in
    Alignment-words (length ref) ref hyp _ done.0
