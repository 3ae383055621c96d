-- ===== src/Examples/AiCost.antt =====
-- internal/aicost and internal/orchestrator/pricing.go at concrete inputs.
use fluentwork_backend.Base.{
  ℕ, String, ◌≡◌, refl, subst, inl, inr, true, none, some, List, [], ◌∷◌, arith, str_eq, Bool-cases,
  pos, keep_if, trim_space, Dict, lookup, contains_text,
}
use fluentwork_backend.Session.Types.{CostLog}
use fluentwork_backend.AiCost.Ledger.{SummaryFilter, list_recent}
use fluentwork_backend.AiCost.Ledger.Recent.{IsEnd, is_asked, list_recent-IsEnd}
use fluentwork_backend.AiCost.Pricing.{
  ModelPricing, default_ark_pricing, configure_pricing, resolve_pricing, calculate_cost_micro_yuan,
  guess_model_family, is_positive,
}
use fluentwork_backend.AiCost.Pricing.Charge.{
  ArePositive, IsCharge, calculate_cost_micro_yuan-IsCharge, configure_pricing-IsTaken, IsTaken,
}

abbrev as_is : String → String
as_is s = s

default_ark_pricing-ArePositive : ArePositive default_ark_pricing
unfolding lookup
default_ark_pricing-ArePositive model price h = elim (Bool-cases (str_eq "doubao-mini-32k" model)) [
  | inl e ↦
      let stored : some (record {
        input_micro_yuan_per_million = pos 300_000;
        output_micro_yuan_per_million = pos 600_000;
      })
          ≡ some price =
        rw e at h in
      let same : record {
        input_micro_yuan_per_million = pos 300_000;
        output_micro_yuan_per_million = pos 600_000;
      }
          ≡ price =
        cc stored in
      subst (λ (p : ModelPricing). is_positive p ≡ true) same refl
  | inr e ↦ absurd (cc (rw e at h))
]

-- Three tokens of a model that is priced by its family cost 1.
abbrev mini_price : ModelPricing
mini_price = record {
  input_micro_yuan_per_million = pos 300_000;
  output_micro_yuan_per_million = pos 600_000;
}

mini_lem : (resolve_pricing as_is [] default_ark_pricing "doubao-mini-x").0 ≡ some mini_price
unfolding resolve_pricing trim_space lookup guess_model_family contains_text
mini_lem = refl

calculate_cost_micro_yuan-IsCharge_example :
    IsCharge
      (resolve_pricing as_is [] default_ark_pricing "doubao-mini-x").0
      1
      2
      (calculate_cost_micro_yuan as_is [] default_ark_pricing "doubao-mini-x" (pos 1) (pos 2))
calculate_cost_micro_yuan-IsCharge_example =
    calculate_cost_micro_yuan-IsCharge as_is [] default_ark_pricing "doubao-mini-x" 1 2
      default_ark_pricing-ArePositive (omega arith)
      (λ price found. let same : price ≡ mini_price = cc (found, mini_lem) in rw same (omega arith))

abbrev a_mistake : Dict ModelPricing
a_mistake =
    ("m", record { input_micro_yuan_per_million = pos 1; output_micro_yuan_per_million = pos 0 })
    ∷ []

configure_pricing-IsTaken_example :
    IsTaken as_is a_mistake default_ark_pricing
      (configure_pricing as_is a_mistake default_ark_pricing)
configure_pricing-IsTaken_example = configure_pricing-IsTaken as_is a_mistake default_ark_pricing

abbrev call : CostLog
call = record {
  id = "c1";
  user_id = some "anna";
  user_id_anonymized = none;
  task_type = "review";
  model = "m";
  tokens_in = pos 10;
  tokens_out = pos 5;
  audio_sec = pos 0;
  chars = pos 0;
  cost_micro_yuan = pos 3;
  created_at = 100;
}

abbrev ledger : List CostLog
ledger =
    call
    ∷ record call { id = "c2"; user_id = none }
    ∷ record call { id = "c3"; created_at = 120 }
    ∷ []

list_recent-IsEnd_example :
    IsEnd 1 (keep_if (is_asked "anna") ledger) (list_recent "anna" (pos 1) ledger)
unfolding trim_space
list_recent-IsEnd_example = list_recent-IsEnd "anna" 1 ledger (omega arith)

abbrev a_day : SummaryFilter
a_day = record { user_id = ""; since = 90; until = 110; group_by = "model" }

abbrev no_day : ℕ → String
no_day at = ""
