-- ===== src/Examples/VoicePoc.antt =====
-- internal/voicepoc/wer.go: the word error rate at concrete inputs.
use Prim.Native.Char.{Char, code}
use fluentwork_backend.Base.{◌+◌, ◌≤◌, String, ◌≡◌, refl, Bool, ◌&&◌, [], ◌∷◌, arith, leb}
use fluentwork_backend.VoicePoc.Wer.{
  WerResult, errors, no_counts, cost_table, walk, tokenize_wer, score_tokens, score_wer,
}
use fluentwork_backend.VoicePoc.Wer.Alignment.{Alignment}
use fluentwork_backend.VoicePoc.Wer.Walk.{score_wer-least, walk-ends}

abbrev is_letter : Char → Bool
is_letter c = leb 0x61 (code c) && leb (code c) 0x7A

abbrev as_is : String → String
as_is s = s

score_wer-least_example :
    Alignment 2 ("let" ∷ "us" ∷ []) ("lets" ∷ []) (score_wer is_letter as_is "let us" "let's")
    × ((r : WerResult)
        → Alignment 2 ("let" ∷ "us" ∷ []) ("lets" ∷ []) r
        → errors (score_wer is_letter as_is "let us" "let's") ≤ errors r)
unfolding tokenize_wer
score_wer-least_example = score_wer-least is_letter as_is "let us" "let's" refl

walk-ends_example :
    let r =
      walk (cost_table ("a" ∷ "b" ∷ []) ("b" ∷ [])) 3 ("b" ∷ "a" ∷ []) ("b" ∷ []) (no_counts 2) in
    (r.correct + r.substitutions + r.deletions ≡ 2)
    × (r.correct + r.substitutions + r.insertions ≡ 1)
walk-ends_example = walk-ends ("a" ∷ "b" ∷ []) ("b" ∷ []) 3 (omega arith)

-- One word was heard for two: a substitution and a deletion.
score_tokens_test :
    score_tokens ("let" ∷ "us" ∷ []) ("lets" ∷ [])
    ≡ record { substitutions = 1; deletions = 1; insertions = 0; correct = 0; reference_length = 2 }
unfolding score_tokens
score_tokens_test = refl
