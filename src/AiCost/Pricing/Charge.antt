-- ===== src/AiCost/Pricing/Charge.antt =====
-- internal/orchestrator/pricing.go: no call of a priced model is free, and a table is taken as a whole or not at all.
use fluentwork_backend.Base.{
  ℕ, ◌+◌, ◌-◌, ◌*◌, ◌/◌, ◌≤◌, ◌<◌, String, ◌≡◌, refl, sym, subst, ◌⊎◌, inl, inr, Bool, true, false,
  not, ◌&&◌, Option, none, some, [], ◌∷◌, arith, str_eq, leb, if◌then◌else◌, is_some, Bool-cases,
  Option-cases, ℤ, pos, negsuc, pos_part, sub_ℕ, ltb_ℤ, leb_ℤ, length, trim_space, Dict, lookup,
  insert, lookup-insert, second, add_ℤ, ok, err, eq_ℤ, lookup-insert, mul_ℤ, quot_ℤ, to_int64_small,
}
use fluentwork_backend.AiCost.Pricing.{
  ModelPricing, PricingSource, PricingError, is_positive, clean_table, configure_pricing,
  normalize_model_name, guess_model_family, priced_as, guessed_price, resolve_pricing, charge,
  calculate_cost_micro_yuan,
}

-- Every price of the table is positive.
abbrev pub ArePositive : Dict ModelPricing → Type 0
ArePositive table =
    (model : String) (price : ModelPricing)
    → lookup model table ≡ some price
    → is_positive price ≡ true

-- An exact amount, rounded down but to 1 at least.
abbrev pub IsRounded : ℕ → ℤ → Type 0
IsRounded exact cost =
    (c : ℕ) × (cost ≡ pos c)
    × (1 ≤ c)
    × (exact < (c + 1) * 1_000_000)
    × (c ≡ 1 ⊎ (c * 1_000_000 ≤ exact))

-- The exact amount of a call, in millionths of what is recorded.
abbrev pub exact_amount : ModelPricing → ℕ → ℕ → ℕ
exact_amount price prompt_tokens output_tokens =
    prompt_tokens * pos_part price.input_micro_yuan_per_million
    + output_tokens * pos_part price.output_micro_yuan_per_million

-- What a call is recorded at: for a price, the exact amount rounded down, but at least 1; else 0.
abbrev pub IsCharge : Option ModelPricing → ℕ → ℕ → ℤ → Type 0
IsCharge none prompt_tokens output_tokens cost = cost ≡ pos 0
IsCharge (some price) prompt_tokens output_tokens cost =
    IsRounded (exact_amount price prompt_tokens output_tokens) cost

sub_ℕ-zero : (n : ℕ) → sub_ℕ n 0 ≡ pos n
sub_ℕ-zero n =
    let whole : n - 0 ≡ n = omega arith in
    elim (Bool-cases (leb 0 n)) [ inl e ↦ rw (e, whole) refl | inr e ↦ absurd (ground arith) ]

mul_ℤ-pos : (a b : ℕ) → mul_ℤ (pos a) (pos b) ≡ pos (a * b)
mul_ℤ-pos a b =
    let product : a * b + 0 * 0 ≡ a * b = omega arith in
    let nothing : a * 0 + 0 * b ≡ 0 = omega arith in rw (product, nothing) (sub_ℕ-zero (a * b))

add_ℤ-pos : (a b : ℕ) → add_ℤ (pos a) (pos b) ≡ pos (a + b)
unfolding add_ℤ
add_ℤ-pos a b = sub_ℕ-zero (a + b)

quot_ℤ-pos : (a : ℕ) → quot_ℤ (pos a) 1_000_000 ≡ pos (a / 1_000_000)
quot_ℤ-pos a = sub_ℕ-zero (a / 1_000_000)

rounded :
    (n : ℕ)
    → IsRounded n (if eq_ℤ (pos (n / 1_000_000)) (pos 0) then pos 1 else pos (n / 1_000_000))
rounded n = elim (Bool-cases (eq_ℤ (pos (n / 1_000_000)) (pos 0))) [
  | inl e ↦
      let nothing : n / 1_000_000 ≡ 0 = ground arith in
      rw e (1, refl, omega arith, omega (arith, nothing), inl refl)
  | inr e ↦
      let something : 0 < n / 1_000_000 = ground arith in
      rw e (n / 1_000_000, refl, something, omega arith, inr (omega arith))
]

charge-IsRounded :
    (a b p o : ℕ)
    → p * a + o * b < 0x8000_0000_0000_0000
    → IsRounded (p * a + o * b) (
        charge
          (record { input_micro_yuan_per_million = pos a; output_micro_yuan_per_million = pos b })
          (pos p)
          (pos o))
charge-IsRounded a b p o small =
    rw
      (
        mul_ℤ-pos p a,
        mul_ℤ-pos o b,
        to_int64_small (p * a) (omega (arith, small)),
        to_int64_small (o * b) (omega (arith, small)),
        add_ℤ-pos (p * a) (o * b),
        to_int64_small (p * a + o * b) small,
        quot_ℤ-pos (p * a + o * b),
      )
      (rounded (p * a + o * b))

and_split : (a b : Bool) → (a && b) ≡ true → (a ≡ true) × (b ≡ true)
and_split true b h = (refl, h)
and_split false b h = absurd (cc h)

pos_part_lem : (a : ℤ) → ltb_ℤ (pos 0) a ≡ true → a ≡ pos (pos_part a)
pos_part_lem (pos n) h = refl
pos_part_lem (negsuc n) h = absurd (ground arith)

is_positive_lem :
    (price : ModelPricing)
    → is_positive price ≡ true
    → price ≡ record {
      input_micro_yuan_per_million = pos (pos_part price.input_micro_yuan_per_million);
      output_micro_yuan_per_million = pos (pos_part price.output_micro_yuan_per_million);
    }
is_positive_lem price h =
    let (first, second) =
      and_split (ltb_ℤ (pos 0) price.input_micro_yuan_per_million)
        (ltb_ℤ (pos 0) price.output_micro_yuan_per_million) h in
    rw
      (
        sym (pos_part_lem price.input_micro_yuan_per_million first),
        sym (pos_part_lem price.output_micro_yuan_per_million second),
      )
      refl

charge-IsCharge :
    (price : ModelPricing) (p o : ℕ)
    → is_positive price ≡ true
    → exact_amount price p o < 0x8000_0000_0000_0000
    → IsCharge (some price) p o (charge price (pos p) (pos o))
charge-IsCharge price p o h small =
    subst (λ (known : ModelPricing). IsCharge (some price) p o (charge known (pos p) (pos o)))
      (sym (is_positive_lem price h))
      (charge-IsRounded (pos_part price.input_micro_yuan_per_million)
        (pos_part price.output_micro_yuan_per_million) p o small)

-- The price that was resolved stands in the table.
FromTable : Dict ModelPricing → Option ModelPricing → Type 0
FromTable active none = Unit
FromTable active (some price) = is_positive price ≡ true

priced_as-FromTable :
    (active : Dict ModelPricing) (source : PricingSource) (model : String)
    → ArePositive active
    → FromTable active (priced_as source (lookup model active)).0
unfolding FromTable
priced_as-FromTable active source model h = elim (Option-cases (lookup model active)) [
  | inl e ↦ rw e tt
  | inr (price, e) ↦ rw e (h model price e)
]

guessed_price-FromTable :
    (active : Dict ModelPricing) (family : Option String)
    → ArePositive active
    → FromTable active (guessed_price active family).0
unfolding FromTable
guessed_price-FromTable active none h = tt
guessed_price-FromTable active (some family) h =
    priced_as-FromTable active PricingSource.heuristic family h

module _ (to_lower : String → String) (endpoints : Dict String) where
  resolve_pricing-FromTable :
      (active : Dict ModelPricing) (model : String)
      → ArePositive active
      → FromTable active (resolve_pricing to_lower endpoints active model).0
  unfolding resolve_pricing FromTable
  resolve_pricing-FromTable active model h =
      let raw = to_lower (trim_space model) in
      elim (Bool-cases (is_some (lookup raw endpoints))) [
        | inl e ↦ rw e (
            priced_as-FromTable active PricingSource.exact
              (normalize_model_name to_lower endpoints raw) h)
        | inr e ↦ elim (Option-cases (lookup raw active)) [
          | inr (price, f) ↦ rw (e, f) (h raw price f)
          | inl f ↦ rw (e, f) (guessed_price-FromTable active (guess_model_family to_lower raw) h)
        ]
      ]

-- With a table of positive prices, a call that used tokens, and whose exact amount in millionths is below 2^63, is
-- recorded at its exact price rounded down, but never at less than 1, where its model is priced, and at 0 where it is not.
pub calculate_cost_micro_yuan-IsCharge :
    (to_lower : String → String) (endpoints : Dict String) (active : Dict ModelPricing)
    (model : String) (p o : ℕ)
    → ArePositive active
    → 0 < p + o
    → ((price : ModelPricing)
        → (resolve_pricing to_lower endpoints active model).0 ≡ some price
        → exact_amount price p o < 0x8000_0000_0000_0000)
    → IsCharge
        (resolve_pricing to_lower endpoints active model).0
        p
        o
        (calculate_cost_micro_yuan to_lower endpoints active model (pos p) (pos o))
unfolding calculate_cost_micro_yuan FromTable
calculate_cost_micro_yuan-IsCharge to_lower endpoints active model p o h used small =
    let tokens : (leb_ℤ (pos p) (pos 0) && leb_ℤ (pos o) (pos 0)) ≡ false = ground arith in
    let positive = resolve_pricing-FromTable to_lower endpoints active model h in
    elim (Option-cases ((resolve_pricing to_lower endpoints active model).0)) [
      | inl e ↦ rw (tokens, e) refl
      | inr (price, e) ↦
          rw (tokens, e) (charge-IsCharge price p o (rw e at positive) (small price e))
    ]

-- Whether an entry can be taken: a name, and two positive prices.
abbrev pub is_fit : (String → String) → String × ModelPricing → Bool
is_fit to_lower (model, price) =
    not (str_eq (to_lower (trim_space model)) "")
    && ltb_ℤ (pos 0) price.input_micro_yuan_per_million
    && ltb_ℤ (pos 0) price.output_micro_yuan_per_million

abbrev pub all_fit : (String → String) → Dict ModelPricing → Bool
all_fit to_lower [] = true
all_fit to_lower (entry ∷ table) = is_fit to_lower entry && all_fit to_lower table

-- The price that a table gives a name, the last of those whose model is this name but for case and space.
abbrev pub price_given :
    (String → String) → String → Option ModelPricing → Dict ModelPricing → Option ModelPricing
price_given to_lower name found [] = found
price_given to_lower name found ((model, price) ∷ table) =
    price_given to_lower name
      (if str_eq (to_lower (trim_space model)) name then some price else found) table

-- What the cleaning answers, by whether all entries can be taken.
clean_table-given :
    (to_lower : String → String) (table cleaned : Dict ModelPricing)
    → ((all_fit to_lower table ≡ true)
        × ((after : Dict ModelPricing) × (clean_table to_lower table cleaned ≡ ok after)
            × ((name : String)
                → lookup name after ≡ price_given to_lower name (lookup name cleaned) table)))
      ⊎ ((all_fit to_lower table ≡ false)
          × ((e : PricingError) × (clean_table to_lower table cleaned ≡ err e)))
unfolding clean_table
clean_table-given to_lower [] cleaned = inl (refl, (cleaned, refl, λ name. refl))
clean_table-given to_lower ((model, price) ∷ table) cleaned =
    let own = to_lower (trim_space model) in
    elim (Bool-cases (str_eq own "")) [
      | inl f ↦ inr (rw f refl, (PricingError.empty_name, rw (clean_table, f) refl))
      | inr f ↦ elim (Bool-cases (is_positive price)) [
        | inr g ↦
            inr (rw (f, g) refl, (PricingError.not_positive model, rw (clean_table, f, g) refl))
        | inl g ↦ elim (clean_table-given to_lower table (insert own price cleaned)) [
          | inr (unfit, (e, failed)) ↦
              inr (rw (f, g, unfit) refl, (e, rw (clean_table, f, g) failed))
          | inl (fit, (after, taken, given)) ↦ inl (
            rw (f, g, fit) refl,
            (after, rw (clean_table, f, g) taken, λ name. rw (given name, lookup-insert) refl),
          )
        ]
      ]
    ]

-- What a configuration does: it takes the whole table and nothing else, or leaves the active one.
abbrev pub IsTaken :
    (String → String)
    → Dict ModelPricing
    → Dict ModelPricing
    → Option PricingError × Dict ModelPricing
    → Type 0
IsTaken to_lower table active answer =
    ((0 < length table)
      × (all_fit to_lower table ≡ true)
      × (answer.0 ≡ none)
      × ((name : String) → lookup name answer.1 ≡ price_given to_lower name none table))
    ⊎ (((length table ≡ 0) ⊎ (all_fit to_lower table ≡ false))
        × (is_some answer.0 ≡ true)
        × (answer.1 ≡ active))

-- A table of prices is taken as a whole or not at all. Where it has entries, and each has a name and two positive
-- prices, no error is answered, and the active table then gives every name the price that the new table gives it, the
-- one met last where models have one name but for case and space, and no other name a price. Else an error is
-- answered and the active table stays.
pub configure_pricing-IsTaken :
    (to_lower : String → String) (table active : Dict ModelPricing)
    → IsTaken to_lower table active (configure_pricing to_lower table active)
unfolding configure_pricing lookup
configure_pricing-IsTaken to_lower [] active = inr (inl refl, refl, refl)
configure_pricing-IsTaken to_lower (entry ∷ table) active =
    elim (clean_table-given to_lower (entry ∷ table) []) [
      | inl (fit, (after, taken, given)) ↦
          rw (configure_pricing, taken) (inl (omega arith, fit, refl, given))
      | inr (unfit, (e, failed)) ↦ rw (configure_pricing, failed) (inr (inr unfit, refl, refl))
    ]
