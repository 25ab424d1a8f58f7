-- ===== src/Market.antt =====
-- src/agents/market_intelligence.py: the priority score. Python's arithmetic is an argument.
use property_management_lead.Common.{ℕ, List, [], ◌∷◌, codes, text_eq}
use property_management_lead.Common.Dict.{insert}
use property_management_lead.Common.Result.{Result, ok, raised, ◌>>=◌}
use property_management_lead.Common.Value.{Value, float, null, Object, get}

-- `*`, `+`, `-` and `round`, which raise where the operands are no numbers.
pub record Arithmetic : Type 0 where
  pub times : Value → Value → Result Value
  pub plus : Value → Value → Result Value
  pub minus : Value → Value → Result Value
  pub round_to : Value → ℕ → Result Value

-- The weights alpha, beta and gamma.
pub record Weights : Type 0 where
  pub alpha : Value
  pub beta : Value
  pub gamma : Value

abbrev pub default_weights : Weights
default_weights = record {
  alpha = float (codes "0.4");
  beta = float (codes "0.4");
  gamma = float (codes "0.2");
}

module _ (ops : Arithmetic) where
  unfoldable pub calculate_priority_score : Weights → Value → Value → Value → Result Value
  calculate_priority_score weights vacancy_risk rental_yield_delta competitor_sentiment = do
    vacancy ← ops.times weights.alpha vacancy_risk
    delta ← ops.times weights.beta rental_yield_delta
    upside ← ops.plus vacancy delta
    competition ← ops.times weights.gamma competitor_sentiment
    score ← ops.minus upside competition
    ops.round_to score 4

  -- The score of a dict, by its keys.
  unfoldable pub score_of : Object → Result Value
  unfolding calculate_priority_score
  score_of prop =
      calculate_priority_score default_weights
        (get prop (codes "vacancy_risk") (float (codes "0.0")))
        (get prop (codes "rental_yield_delta") (float (codes "0.0")))
        (get prop (codes "competitor_sentiment") (float (codes "0.0")))

  scored :
      Object
      → Result Value
      → List Object × Result (List Object)
      → List Object × Result (List Object)
  scored prop (raised kind message) after = (prop ∷ after.0, raised kind message)
  scored prop (ok score) after =
      let prop' = insert (codes "priority_score") score prop in
      (prop' ∷ after.0, (after.1 >>= λ rest. ok (prop' ∷ rest)))

  rest_of :
      Result Value
      → List Object
      → List Object × Result (List Object)
      → List Object × Result (List Object)
  rest_of (raised kind message) props after = (props, raised kind message)
  rest_of (ok score) props after = after

  -- The dicts as they are afterwards, and what is returned: the same list, unless a score raises.
  unfoldable pub score_properties : List Object → List Object × Result (List Object)
  unfolding score_of scored rest_of
  score_properties [] = ([], ok [])
  score_properties (prop ∷ props) =
      let after = score_properties props in
      scored prop (score_of prop) (rest_of (score_of prop) props after)

-- The placeholder `check_listing_status`.
unfoldable pub check_listing_status : Value → Object
check_listing_status property_address =
    (codes "address", property_address)
    ∷ (codes "listing_status", null)
    ∷ (codes "days_on_market", null)
    ∷ (codes "source", null)
    ∷ []
