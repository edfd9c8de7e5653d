-- ===== src/Application/Ambiguity.antt =====
-- The rules of src/text_to_sql/application/ambiguity.py, in their order of priority.
pub mod Category
use build_your_own_text2sql.Base.{
  String, Bool, not, ◌&&◌, ◌||◌, Option, none, some, List, [], ◌∷◌, is_some, if◌then◌else◌, ◌≡◌,
  refl,
}
use build_your_own_text2sql.Base.Lists.{any}
use build_your_own_text2sql.Base.Text.{◌+s◌, lower}
use build_your_own_text2sql.Domain.Enums.{
  metric_definition, entity_reference, measure_unspecified, unknown_term,
}
use build_your_own_text2sql.Domain.Models.{Clarification, ClarificationInterpretation}
use build_your_own_text2sql.Semantic.{SemanticLayer, resolve_term, resolve_metric}
use build_your_own_text2sql.Semantic.Dates.Phrases.{has_phrase}

abbrev pub undefined_terms : List (String × String)
undefined_terms =
    ("churn", "customer churn rate")
    ∷ ("ltv", "customer lifetime value")
    ∷ ("cac", "customer acquisition cost")
    ∷ ("arr", "annual recurring revenue")
    ∷ ("retention", "a retention metric")
    ∷ ("nps", "net promoter score")
    ∷ ("conversion rate", "a conversion-rate metric")
    ∷ []

abbrev pub measure_words : List String
measure_words =
    "revenue" ∷ "sales" ∷ "orders" ∷ "order" ∷ "count" ∷ "margin" ∷ "profit" ∷ "quantity" ∷ "spend"
    ∷ "amount" ∷ "mrr" ∷ "tickets" ∷ "value" ∷ "number" ∷ []

abbrev pub rank_words : List String
rank_words = "top" ∷ "best" ∷ "highest" ∷ "largest" ∷ "most" ∷ "biggest" ∷ "leading" ∷ []

abbrev pub entity_words : List String
entity_words =
    "customer" ∷ "customers" ∷ "product" ∷ "products" ∷ "region" ∷ "regions" ∷ "account"
    ∷ "accounts" ∷ "user" ∷ "users" ∷ []

abbrev pub sales_qualifiers : List String
sales_qualifiers = "revenue" ∷ "gross" ∷ "net" ∷ "count" ∷ "number" ∷ []

abbrev pub commerce_words : List String
commerce_words = "revenue" ∷ "orders" ∷ "order" ∷ "sales" ∷ "spend" ∷ "mrr" ∷ []

-- `re.search(rf"\b{re.escape(word)}\b", text)`
unfoldable pub has_word : String → String → Bool
has_word text word = has_phrase (word ∷ []) text

-- `any(_has_word(q, w) for w in words)`
unfoldable pub has_any : String → List String → Bool
unfolding has_word
has_any q words = any (has_word q) words

unfoldable pub term_clarification : String → String → Clarification
term_clarification term label = record {
  category = unknown_term;
  explanation =
      "The term '" +s term +s "' (" +s label
      +s ") has no authoritative definition in the semantic layer, so it cannot be computed safely.";
  interpretations =
      record {
        label = "Provide a definition";
        description = "Define how '" +s term +s "' should be calculated.";
      }
      ∷ [];
  suggested_question = "How should '" +s term +s "' be defined (which tables/columns and formula)?";
  confidence = 80;
}

-- `_unknown_term`: the first term that the question has and the semantic layer does not define
unfoldable pub defined : SemanticLayer → String → Bool
unfolding resolve_metric resolve_term
defined semantic term =
    is_some (resolve_metric semantic term) || is_some (resolve_term semantic term)

unfoldable pub unknown_term_in :
    SemanticLayer → String → List (String × String) → Option Clarification
unfolding has_word defined term_clarification
unknown_term_in semantic q [] = none
unknown_term_in semantic q ((term, label) ∷ terms) =
    let rest = unknown_term_in semantic q terms in
    if has_word q term
    then (if defined semantic term then rest else some (term_clarification term label))
    else rest

abbrev choice : String → String → ClarificationInterpretation
choice label description = record { label = label; description = description }

abbrev sales_clarification : Clarification
sales_clarification = record {
  category = metric_definition;
  explanation = "'Sales' can mean net revenue, gross revenue, or the number of orders.";
  interpretations =
      choice "Net revenue" "Line-item revenue minus approved refunds."
      ∷ choice "Gross revenue" "Line-item revenue before refunds."
      ∷ choice "Order count" "The number of orders placed."
      ∷ [];
  suggested_question = "By 'sales' do you mean net revenue, gross revenue, or order count?";
  confidence = 75;
}

unfoldable pub ambiguous_metric : String → Option Clarification
unfolding has_word has_any
ambiguous_metric q =
    if has_word q "sales"
    then (if has_any q sales_qualifiers then none else some sales_clarification)
    else none

abbrev measure_clarification : Clarification
measure_clarification = record {
  category = measure_unspecified;
  explanation = "A ranking was requested but the measure to rank by is unspecified.";
  interpretations =
      choice "By revenue" "Rank by net revenue."
      ∷ choice "By order count" "Rank by number of orders."
      ∷ choice "By MRR" "Rank by monthly recurring revenue."
      ∷ [];
  suggested_question = "Which measure should the ranking use — revenue, order count, or MRR?";
  confidence = 70;
}

unfoldable pub unspecified_measure : String → Option Clarification
unfolding has_any
unspecified_measure q =
    if has_any q rank_words
    then (if has_any q entity_words
        then (if has_any q measure_words then none else some measure_clarification)
        else none)
    else none

abbrev entity_clarification : Clarification
entity_clarification = record {
  category = entity_reference;
  explanation =
      "Commerce measures attach to customer accounts, but the question mentions 'users' (application logins). These are different entities.";
  interpretations =
      choice "Customers" "Customer accounts that place orders."
      ∷ choice "Application users" "Login users of the application."
      ∷ [];
  suggested_question = "Do you mean customer accounts or application users?";
  confidence = 65;
}

unfoldable pub entity_in_question : String → Option Clarification
unfolding has_any has_word
entity_in_question q =
    if has_any q commerce_words && (has_word q "user" || has_word q "users")
    then some entity_clarification
    else none

-- `a or b`
unfoldable pub first_clarification :
    Option Clarification → Option Clarification → Option Clarification
first_clarification none b = b
first_clarification (some a) b = some a

unfoldable pub detect : SemanticLayer → String → Option Clarification
unfolding unknown_term_in ambiguous_metric unspecified_measure entity_in_question
    first_clarification lower
detect semantic question =
    let q = lower question in
    first_clarification
      (first_clarification
        (first_clarification (unknown_term_in semantic q undefined_terms) (ambiguous_metric q))
        (unspecified_measure q))
      (entity_in_question q)

-- Opens all that the detector computes with.
unfoldable pub detector_runs : Unit {0}
unfolding detect
detector_runs = tt
