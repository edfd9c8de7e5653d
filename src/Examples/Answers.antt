-- ===== src/Examples/Answers.antt =====
-- The theorems on clarifications and explanations.
use Prim.Native.String.{String}
use build_your_own_text2sql.Base.{ℕ, false, List, [], ◌∷◌, ◌≡◌, refl, some, none}
use build_your_own_text2sql.Base.Text.{decimal, lower}
use build_your_own_text2sql.Domain.Enums.{unknown_term, measure_unspecified}
use build_your_own_text2sql.Semantic.{SemanticLayer, resolve_term, resolve_metric}
use build_your_own_text2sql.Semantic.Dates.Phrases.{phrases_runs}
use build_your_own_text2sql.Execution.{ExecutionResult}
use build_your_own_text2sql.Application.Ambiguity.{detect, detector_runs}
use build_your_own_text2sql.Application.Ambiguity.Category.{
  category_of, documented, detect-category,
}
use build_your_own_text2sql.Application.Explainer.{explain_result}
use build_your_own_text2sql.Application.Explainer.InRange.{explain_result_returns}

abbrev no_layer : SemanticLayer
no_layer = record {
  terms = [];
  metrics = [];
  column_annotations = [];
  table_annotations = [];
  default_date_fields = [];
}

detect_runs :
    (category_of (detect no_layer "What is our LTV?") ≡ some unknown_term)
    × (category_of (detect no_layer "top customers") ≡ some measure_unspecified)
    × (category_of (detect no_layer "top customers by revenue") ≡ none)
unfolding detect detector_runs phrases_runs resolve_term resolve_metric
detect_runs = (refl, refl, refl)

detect-category_example :
    category_of (detect no_layer "top customers") ≡ documented no_layer (lower "top customers")
detect-category_example = detect-category no_layer "top customers"

abbrev two_rows : ExecutionResult ℕ
two_rows = record {
  columns = "region" ∷ "orders" ∷ [];
  rows = (some 1 ∷ some 20 ∷ []) ∷ (some 2 ∷ none ∷ []) ∷ [];
  row_count = 2;
  truncated = false;
}

explain_runs :
    explain_result decimal two_rows [] 90 false
    ≡ some ("Returned 2 rows of orders by region. Top: 1: 20, 2: NULL.", [])
unfolding explain_result
explain_runs = refl

explain_result_returns_example :
    (e : String × List String) × (explain_result decimal two_rows [] 90 false ≡ some e)
explain_result_returns_example =
    explain_result_returns decimal two_rows [] 90 false
      (record { counted = refl; wide = (refl, (refl, tt)) })
