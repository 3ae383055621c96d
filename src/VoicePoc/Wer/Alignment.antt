-- ===== src/VoicePoc/Wer/Alignment.antt =====
-- internal/voicepoc/wer.go: the alignments of two lists of words, and that none has fewer errors than the
-- edit distance.
use fluentwork_backend.Base.{ℕ, ◌+◌, ◌≤◌, String, ◌≡◌, true, false, List, [], ◌∷◌, arith, str_eq}
use fluentwork_backend.VoicePoc.Wer.{
  WerResult, errors, no_counts, reverse_onto, count_correct, count_substitution, count_deletion,
  count_insertion,
}
use fluentwork_backend.VoicePoc.Wer.Table.{lev}

-- The counts of a way to turn the reference into the hypothesis, word by word.
pub data Alignment (n : ℕ) : List String → List String → WerResult → Type 0 where
  nothing : Alignment n [] [] (no_counts n)
  correct_word :
      {x y : String} {xs ys : List String} {r : WerResult}
      → str_eq x y ≡ true
      → Alignment n xs ys r
      → Alignment n (x ∷ xs) (y ∷ ys) (count_correct r)
  substituted :
      {x y : String} {xs ys : List String} {r : WerResult}
      → str_eq x y ≡ false
      → Alignment n xs ys r
      → Alignment n (x ∷ xs) (y ∷ ys) (count_substitution r)
  deleted :
      {x : String} {xs ys : List String} {r : WerResult}
      → Alignment n xs ys r
      → Alignment n (x ∷ xs) ys (count_deletion r)
  inserted :
      {y : String} {xs ys : List String} {r : WerResult}
      → Alignment n xs ys r
      → Alignment n xs (y ∷ ys) (count_insertion r)

-- The distances of neighbours, one word more of one of the lists, differ by 1 at most.
abbrev NextX : List String → List String → Type 0
NextX xs ys = (x : String) → (lev (x ∷ xs) ys ≤ lev xs ys + 1) × (lev xs ys ≤ lev (x ∷ xs) ys + 1)

abbrev NextY : List String → List String → Type 0
NextY xs ys = (y : String) → (lev xs (y ∷ ys) ≤ lev xs ys + 1) × (lev xs ys ≤ lev xs (y ∷ ys) + 1)

NextX-[] : (xs : List String) → NextX xs []
unfolding lev
NextX-[] [] x = (omega arith, omega arith)
NextX-[] (z ∷ xs) x = (omega arith, omega arith)

NextY-[] : (ys : List String) → NextY [] ys
unfolding lev
NextY-[] ys y = (omega arith, omega arith)

NextX-∷ :
    (xs : List String) (y : String) (ys : List String)
    → NextY xs ys
    → NextX xs ys
    → NextX xs (y ∷ ys)
unfolding lev
NextX-∷ xs y ys next_y next_x x =
    let a = next_y y in
    let b = next_x x in (ground (arith, a.0, a.1, b.0, b.1), ground (arith, a.0, a.1, b.0, b.1))

NextY-∷ : (x : String) (xs ys : List String) → NextX xs ys → NextY xs ys → NextY (x ∷ xs) ys
unfolding lev
NextY-∷ x xs ys next_x next_y y =
    let a = next_x x in
    let b = next_y y in (ground (arith, a.0, a.1, b.0, b.1), ground (arith, a.0, a.1, b.0, b.1))

neighbours : (xs ys : List String) → NextX xs ys × NextY xs ys
neighbours [] [] = (NextX-[] [], NextY-[] [])
neighbours [] (y ∷ ys) =
    (NextX-∷ [] y ys (neighbours [] ys).1 (neighbours [] ys).0, NextY-[] (y ∷ ys))
neighbours (x ∷ xs) [] =
    (NextX-[] (x ∷ xs), NextY-∷ x xs [] (neighbours xs []).0 (neighbours xs []).1)
neighbours (x ∷ xs) (y ∷ ys) = (
  NextX-∷ (x ∷ xs) y ys (neighbours (x ∷ xs) ys).1 (neighbours (x ∷ xs) ys).0,
  NextY-∷ x xs (y ∷ ys) (neighbours xs (y ∷ ys)).0 (neighbours xs (y ∷ ys)).1,
)

lev-equal :
    (x y : String) (xs ys : List String) → str_eq x y ≡ true → lev (x ∷ xs) (y ∷ ys) ≡ lev xs ys
unfolding lev
lev-equal x y xs ys e = rw e

lev-substituted : (x y : String) (xs ys : List String) → lev (x ∷ xs) (y ∷ ys) ≤ lev xs ys + 1
unfolding lev
lev-substituted x y xs ys = ground arith

-- No alignment of what follows adds fewer errors than the distance grows.
lev-Alignment :
    {n : ℕ} (xs ys : List String) (r : WerResult)
    → Alignment n xs ys r
    → (us vs : List String) → lev (reverse_onto xs us) (reverse_onto ys vs) ≤ lev us vs + errors r
lev-Alignment [] [] _ nothing us vs = omega arith
lev-Alignment (x ∷ xs) (y ∷ ys) _ (correct_word {r = r} e h) us vs =
    omega (arith, lev-Alignment xs ys r h (x ∷ us) (y ∷ vs), lev-equal x y us vs e)
lev-Alignment (x ∷ xs) (y ∷ ys) _ (substituted {r = r} e h) us vs =
    omega (arith, lev-Alignment xs ys r h (x ∷ us) (y ∷ vs), lev-substituted x y us vs)
lev-Alignment (x ∷ xs) ys _ (deleted {r = r} h) us vs =
    omega (arith, lev-Alignment xs ys r h (x ∷ us) vs, ((neighbours us vs).0 x).0)
lev-Alignment xs (y ∷ ys) _ (inserted {r = r} h) us vs =
    omega (arith, lev-Alignment xs ys r h us (y ∷ vs), ((neighbours us vs).1 y).0)

-- The distance is no more than the errors of any alignment.
pub lev-least :
    (n : ℕ) (ref hyp : List String) (r : WerResult)
    → Alignment n ref hyp r
    → lev (reverse_onto ref []) (reverse_onto hyp []) ≤ errors r
unfolding lev
lev-least n ref hyp r h = omega (arith, lev-Alignment ref hyp r h [] [])
