-- ===== src/VoicePoc/Wer/Table.antt =====
-- internal/voicepoc/wer.go: the table of `ScoreWER` against the recursive edit distance of the words.
use fluentwork_backend.Base.{
  ℕ, zero, suc, ◌+◌, String, ◌≡◌, refl, sym, ap, ◌∙◌, List, [], ◌∷◌, str_eq, if◌then◌else◌, length,
  drop, min, get_or,
}
use fluentwork_backend.VoicePoc.Wer.{reverse_onto, fill_row, fill_rows, first_row, cost_table, cell}

-- The edit distance of two prefixes, each from its last word: the reference definition.
unfoldable pub lev : List String → List String → ℕ
lev [] ys = length ys
lev (x ∷ xs) [] = suc (length xs)
lev (x ∷ xs) (y ∷ ys) =
    if str_eq x y
    then lev xs ys
    else min (min (lev xs ys + 1) (lev xs (y ∷ ys) + 1)) (lev (x ∷ xs) ys + 1)

-- The values of a function at the prefixes of a list, each from its last entry.
module _ {ℓ κ} {A : Type ℓ} {B : Type κ} where
  abbrev scan : (List A → B) → List A → List A → List B
  scan f acc [] = f acc ∷ []
  scan f acc (x ∷ xs) = f acc ∷ scan f (x ∷ acc) xs

  -- What the list of the values starts with, and what follows.
  scan_rest : (f : List A → B) (acc xs : List A) → (rest : List B) × (scan f acc xs ≡ f acc ∷ rest)
  scan_rest f acc [] = ([], refl)
  scan_rest f acc (x ∷ xs) = (scan f (x ∷ acc) xs, refl)

module _ {ℓ} {A : Type ℓ} where
  drop_next :
      (n : ℕ) (xs : List A) (y : A) (ys : List A) → drop n xs ≡ y ∷ ys → drop (suc n) xs ≡ ys
  drop_next zero [] y ys h = absurd (cc h)
  drop_next zero (x ∷ xs) y ys h = cc h
  drop_next (suc n) [] y ys h = absurd (cc h)
  drop_next (suc n) (x ∷ xs) y ys h = drop_next n xs y ys h

  get_or-drop :
      (n : ℕ) (xs : List A) (d y : A) (ys : List A) → drop n xs ≡ y ∷ ys → get_or xs n d ≡ y
  get_or-drop zero [] d y ys h = absurd (cc h)
  get_or-drop zero (x ∷ xs) d y ys h = cc h
  get_or-drop (suc n) [] d y ys h = absurd (cc h)
  get_or-drop (suc n) (x ∷ xs) d y ys h = get_or-drop n xs d y ys h

module _ {ℓ κ} {A : Type ℓ} {B : Type κ} where
  drop-scan :
      (f : List A → B) (zs rest : List A)
      → drop (length zs) (scan f [] (reverse_onto zs rest)) ≡ scan f zs rest
  drop-scan f [] rest = refl
  drop-scan f (z ∷ zs) rest =
      drop_next (length zs) (scan f [] (reverse_onto zs (z ∷ rest))) (f zs) (scan f (z ∷ zs) rest)
        (drop-scan f zs (z ∷ rest))

  -- The value at a prefix stands at its length.
  get_or-scan :
      (f : List A → B) (zs rest : List A) (d : B)
      → get_or (scan f [] (reverse_onto zs rest)) (length zs) d ≡ f zs
  get_or-scan f zs rest d =
      get_or-drop (length zs) (scan f [] (reverse_onto zs rest)) d (f zs) ((scan_rest f zs rest).0)
        (drop-scan f zs rest ∙ (scan_rest f zs rest).1)

-- The tail of a row of distances.
abbrev later : List String → List String → List String → List ℕ
later xs acc [] = []
later xs acc (h ∷ hs) = scan (lev xs) (h ∷ acc) hs

scan-later : (xs acc hs : List String) → scan (lev xs) acc hs ≡ lev xs acc ∷ later xs acc hs
scan-later xs acc [] = refl
scan-later xs acc (h ∷ hs) = refl

fill_row_lem :
    (word : String) (xs acc hs : List String)
    → fill_row word hs (scan (lev xs) acc hs) (lev (word ∷ xs) acc) ≡ later (word ∷ xs) acc hs
unfolding fill_row lev
fill_row_lem word xs acc [] = refl
fill_row_lem word xs acc (h ∷ hs) = rw (
  scan-later xs (h ∷ acc) hs,
  scan-later (word ∷ xs) (h ∷ acc) hs,
  sym (fill_row_lem word xs (h ∷ acc) hs),
  scan-later xs (h ∷ acc) hs,
)

first_row_lem : (acc hs : List String) → first_row (length acc) hs ≡ scan (lev []) acc hs
unfolding first_row lev
first_row_lem acc [] = refl
first_row_lem acc (h ∷ hs) = ap (◌∷◌ (length acc)) (first_row_lem (h ∷ acc) hs)

fill_rows_lem :
    (acc ref hyp : List String)
    → fill_rows ref hyp (length acc) (scan (lev acc) [] hyp)
      ≡ scan (λ xs. scan (lev xs) [] hyp) acc ref
unfolding fill_rows lev
fill_rows_lem acc [] hyp = refl
fill_rows_lem acc (word ∷ ref) hyp =
    ap (λ rows. scan (lev acc) [] hyp ∷ rows)
      (rw (
        fill_row_lem word acc [] hyp,
        sym (scan-later (word ∷ acc) [] hyp),
        fill_rows_lem (word ∷ acc) ref hyp,
      ))

-- The cell of two prefixes holds their edit distance.
pub cost_table_lem :
    (xs rest ys rest_hyp : List String)
    → cell (cost_table (reverse_onto xs rest) (reverse_onto ys rest_hyp)) (length xs) (length ys)
      ≡ lev xs ys
unfolding cost_table
cost_table_lem xs rest ys rest_hyp =
    let hyp = reverse_onto ys rest_hyp in
    rw (
      first_row_lem [] hyp,
      fill_rows_lem [] (reverse_onto xs rest) hyp,
      get_or-scan (λ zs. scan (lev zs) [] hyp) xs rest [],
      get_or-scan (lev xs) ys rest_hyp 0,
    )
