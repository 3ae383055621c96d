-- ===== src/Corpus/Hits/Lookback.antt =====
-- internal/corpus/hits_service.go: the turns that a lookback keeps.
use fluentwork_backend.Base.{
  ℕ, zero, suc, ◌≤◌, String, ◌≡◌, refl, sym, ap, ◌∙◌, inl, inr, true, false, List, [], ◌∷◌, ◌++◌,
  arith, leb, ◌==◌, if◌then◌else◌, Bool-cases, length, take, keep_if, length-append, append_assoc,
  append-[],
}
use fluentwork_backend.Corpus.Hits.{RecentHit, is_among, allow_turns, apply_lookback}

-- The reference: the turns of the hits, each once, in the order in which they are met.
abbrev pub distinct_turns : List String → List RecentHit → List String
distinct_turns met [] = met
distinct_turns met (hit ∷ hits) =
    if is_among hit.turn_id met
    then distinct_turns met hits
    else distinct_turns (met ++ hit.turn_id ∷ []) hits

-- What was met first stays first.
distinct_turns-starts :
    (met : List String) (hits : List RecentHit)
    → (rest : List String) × (distinct_turns met hits ≡ met ++ rest)
distinct_turns-starts met [] = ([], sym (append-[] met))
distinct_turns-starts met (hit ∷ hits) = elim (Bool-cases (is_among hit.turn_id met)) [
  | inl e ↦ rw e (distinct_turns-starts met hits)
  | inr e ↦
      let (rest, same) = distinct_turns-starts (met ++ hit.turn_id ∷ []) hits in
      rw e (hit.turn_id ∷ rest, same ∙ append_assoc met (hit.turn_id ∷ []) rest)
]

take-append : (xs ys : List String) → take (length xs) (xs ++ ys) ≡ xs
take-append [] ys = refl
take-append (x ∷ xs) ys = ap (◌∷◌ x) (take-append xs ys)

-- A full list of turns takes no more.
allow_turns-full :
    (n : ℕ) (allowed : List String) (hits : List RecentHit)
    → n ≤ length allowed
    → allow_turns n allowed hits ≡ allowed
unfolding allow_turns
allow_turns-full n allowed [] h = refl
allow_turns-full n allowed (hit ∷ hits) h =
    let full : leb n (length allowed) ≡ true = ground arith in
    elim (Bool-cases (is_among hit.turn_id allowed)) [
      | inl e ↦ rw e (allow_turns-full n allowed hits h)
      | inr e ↦ rw (e, full) (allow_turns-full n allowed hits h)
    ]

take-all : (n : ℕ) (xs : List String) → length xs ≤ n → take n xs ≡ xs
take-all zero [] h = refl
take-all zero (x ∷ xs) h = absurd (omega (arith, h))
take-all (suc n) [] h = refl
take-all (suc n) (x ∷ xs) h = ap (◌∷◌ x) (take-all n xs (omega (arith, h)))

allow_turns-first :
    (n : ℕ) (allowed : List String) (hits : List RecentHit)
    → length allowed ≤ n
    → allow_turns n allowed hits ≡ take n (distinct_turns allowed hits)
unfolding allow_turns
allow_turns-first n allowed [] h = sym (take-all n allowed h)
allow_turns-first n allowed (hit ∷ hits) h = elim (Bool-cases (is_among hit.turn_id allowed)) [
  | inl e ↦ rw e (allow_turns-first n allowed hits h)
  | inr e ↦ elim (Bool-cases (leb n (length allowed))) [
    | inr f ↦
        rw (e, f)
          (allow_turns-first n (allowed ++ hit.turn_id ∷ []) hits
            (ground (arith, length-append allowed (hit.turn_id ∷ []))))
    | inl f ↦
        let (rest, same) = distinct_turns-starts (allowed ++ hit.turn_id ∷ []) hits in
        let size : n ≡ length allowed = ground arith in
        rw
          (
            e,
            f,
            allow_turns-full n allowed hits (ground arith),
            same,
            append_assoc allowed (hit.turn_id ∷ []) rest,
            size,
          )
          (sym (take-append allowed (hit.turn_id ∷ rest)))
  ]
]

keep_nothing : (hits : List RecentHit) → keep_if (λ hit. is_among hit.turn_id []) hits ≡ []
keep_nothing [] = refl
keep_nothing (hit ∷ hits) = keep_nothing hits

-- A lookback of n turns keeps exactly the hits of the first n turns that are met, all of them, in their order.
pub apply_lookback-first :
    (n : ℕ) (hits : List RecentHit)
    → apply_lookback n hits
      ≡ keep_if (λ hit. is_among hit.turn_id (take n (distinct_turns [] hits))) hits
unfolding apply_lookback
apply_lookback-first zero hits = sym (keep_nothing hits)
apply_lookback-first (suc n) hits =
    let asked : (suc n == 0) ≡ false = ground arith in
    rw (apply_lookback, asked)
      (ap (λ turns. keep_if (λ hit. is_among hit.turn_id turns) hits)
        (allow_turns-first (suc n) [] hits (omega arith)))
