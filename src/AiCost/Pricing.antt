-- ===== src/AiCost/Pricing.antt =====
-- internal/orchestrator/pricing.go: the table of prices and what a call costs, in 10^-6 CNY. strings.ToLower is a
-- parameter; the counters of unpriced models, and the file of prices, are left out.
pub mod Charge
use fluentwork_backend.Base.{
  String, Bool, ◌&&◌, Option, none, some, [], ◌∷◌, str_eq, if◌then◌else◌, is_some, ℤ, pos, ltb_ℤ,
  leb_ℤ, trim_space, Dict, lookup, insert, add_ℤ, Result, ok, err, eq_ℤ, contains_text, mul_ℤ,
  quot_ℤ, to_int64,
}

pub record ModelPricing : Type 0 where
  pub input_micro_yuan_per_million : ℤ
  pub output_micro_yuan_per_million : ℤ

pub data PricingSource : Type 0 where
  exact heuristic unknown : PricingSource

-- `defaultArkPricing`
abbrev pub default_ark_pricing : Dict ModelPricing
default_ark_pricing =
    (
      "doubao-mini-32k",
      record {
        input_micro_yuan_per_million = pos 300_000;
        output_micro_yuan_per_million = pos 600_000;
      },
    )
    ∷ []

-- The errors of `ConfigurePricing`
pub data PricingError : Type 0 where
  empty_table empty_name : PricingError
  not_positive : String → PricingError

abbrev pub is_positive : ModelPricing → Bool
is_positive price =
    ltb_ℤ (pos 0) price.input_micro_yuan_per_million
    && ltb_ℤ (pos 0) price.output_micro_yuan_per_million

-- What a call costs at a price, in int64: products and sum wrap.
abbrev pub charge : ModelPricing → ℤ → ℤ → ℤ
charge price prompt_tokens output_tokens =
    let total =
      quot_ℤ
        (to_int64 (
          add_ℤ (to_int64 (mul_ℤ prompt_tokens price.input_micro_yuan_per_million))
            (to_int64 (mul_ℤ output_tokens price.output_micro_yuan_per_million))))
        1_000_000 in
    if eq_ℤ total (pos 0) then pos 1 else total

-- The price that stands in the table, with the source that it then has.
abbrev priced_as : PricingSource → Option ModelPricing → Option ModelPricing × PricingSource
priced_as source none = (none, PricingSource.unknown)
priced_as source (some price) = (some price, source)

-- The family that a model is priced as, where no entry is exact.
abbrev guessed_price : Dict ModelPricing → Option String → Option ModelPricing × PricingSource
guessed_price active none = (none, PricingSource.unknown)
guessed_price active (some family) = priced_as PricingSource.heuristic (lookup family active)

module _ (to_lower : String → String) where
  -- The loop of `ConfigurePricing`, in the order in which it meets the models.
  unfoldable pub clean_table :
      Dict ModelPricing → Dict ModelPricing → Result PricingError (Dict ModelPricing)
  clean_table [] cleaned = ok cleaned
  clean_table ((model, price) ∷ table) cleaned =
      let name = to_lower (trim_space model) in
      let rest = clean_table table (insert name price cleaned) in
      if str_eq name ""
      then err PricingError.empty_name
      else if is_positive price
      then rest
      else err (PricingError.not_positive model)

  -- `ConfigurePricing`, on the active table
  unfoldable pub configure_pricing :
      Dict ModelPricing → Dict ModelPricing → Option PricingError × Dict ModelPricing
  unfolding clean_table
  configure_pricing [] active = (some PricingError.empty_table, active)
  configure_pricing (entry ∷ table) active = elim (clean_table (entry ∷ table) []) [
    | err e ↦ (some e, active)
    | ok cleaned ↦ (none, cleaned)
  ]

  -- `guessModelFamily`
  unfoldable pub guess_model_family : String → Option String
  guess_model_family raw =
      let model = trim_space (to_lower raw) in
      if contains_text model "mini"
      then some "doubao-mini-32k"
      else if contains_text model "lite"
      then some "doubao-lite-32k"
      else if contains_text model "character"
      then some "doubao-character-32k"
      else if contains_text model "pro"
      then (if contains_text model "4k"
          then some "doubao-pro-4k"
          else if contains_text model "128k"
          then some "doubao-pro-128k"
          else if contains_text model "256k"
          then some "doubao-pro-256k"
          else if contains_text model "search"
          then some "doubao-pro-search"
          else some "doubao-pro-32k")
      else none

  -- `normalizeModelName`
  unfoldable pub normalize_model_name : Dict String → String → String
  unfolding guess_model_family
  normalize_model_name endpoints raw =
      let model = trim_space (to_lower raw) in
      elim (lookup model endpoints) [
        | some mapped ↦ mapped
        | none ↦ elim (guess_model_family model) [ some guessed ↦ guessed | none ↦ model ]
      ]

  -- `ResolvePricing`, with the endpoints and the active table; `none` is the price of zeros.
  unfoldable pub resolve_pricing :
      Dict String → Dict ModelPricing → String → Option ModelPricing × PricingSource
  unfolding normalize_model_name guess_model_family
  resolve_pricing endpoints active model =
      let raw = to_lower (trim_space model) in
      if is_some (lookup raw endpoints)
      then priced_as PricingSource.exact (lookup (normalize_model_name endpoints raw) active)
      else elim (lookup raw active) [
        | some price ↦ (some price, PricingSource.exact)
        | none ↦ guessed_price active (guess_model_family raw)
      ]

  -- `CalculateCostMicroYuan`
  unfoldable pub calculate_cost_micro_yuan : Dict String → Dict ModelPricing → String → ℤ → ℤ → ℤ
  unfolding resolve_pricing
  calculate_cost_micro_yuan endpoints active model prompt_tokens output_tokens =
      if leb_ℤ prompt_tokens (pos 0) && leb_ℤ output_tokens (pos 0)
      then pos 0
      else elim (resolve_pricing endpoints active model).0 [
        | none ↦ pos 0
        | some price ↦ charge price prompt_tokens output_tokens
      ]
