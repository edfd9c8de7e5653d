-- ===== src/Application/Ambiguity/Category.antt =====
-- When src/text_to_sql/application/ambiguity.py asks back, and about what.
use build_your_own_text2sql.Base.{
  String, Bool, not, ◌&&◌, ◌||◌, Option, none, some, List, [], ◌∷◌, if◌then◌else◌, ◌≡◌, refl, arith,
}
use build_your_own_text2sql.Base.Lists.{any}
use build_your_own_text2sql.Base.Text.{lower}
use build_your_own_text2sql.Domain.Enums.{
  AmbiguityCategory, metric_definition, entity_reference, measure_unspecified, unknown_term,
}
use build_your_own_text2sql.Domain.Models.{Clarification}
use build_your_own_text2sql.Semantic.{SemanticLayer}
use build_your_own_text2sql.Application.Ambiguity.{
  undefined_terms, measure_words, rank_words, entity_words, sales_qualifiers, commerce_words,
  has_word, has_any, defined, unknown_term_in, ambiguous_metric, unspecified_measure,
  entity_in_question, first_clarification, detect,
}

-- the category of a clarification
abbrev pub category_of : Option Clarification → Option AmbiguityCategory
category_of none = none
category_of (some c) = some c.category

-- a term that the question has and the semantic layer does not define
abbrev pub lacks : SemanticLayer → String → List (String × String) → Bool
lacks semantic q terms =
    any (λ (t : String × String). has_word q t.0 && not (defined semantic t.0)) terms

-- The table of the documented rules.
unfoldable pub documented : SemanticLayer → String → Option AmbiguityCategory
documented semantic q =
    if lacks semantic q undefined_terms
    then some unknown_term
    else if has_word q "sales" && not (has_any q sales_qualifiers)
    then some metric_definition
    else if has_any q rank_words && (has_any q entity_words && not (has_any q measure_words))
    then some measure_unspecified
    else if has_any q commerce_words && (has_word q "user" || has_word q "users")
    then some entity_reference
    else none

abbrev first_of : Option AmbiguityCategory → Option AmbiguityCategory → Option AmbiguityCategory
first_of none b = b
first_of (some a) b = some a

category-first_clarification :
    (a b : Option Clarification)
    → category_of (first_clarification a b) ≡ first_of (category_of a) (category_of b)
unfolding first_clarification
category-first_clarification none b = refl
category-first_clarification (some a) b = refl

category-unknown_term_in :
    (semantic : SemanticLayer) (q : String) (terms : List (String × String))
    → category_of (unknown_term_in semantic q terms)
      ≡ (if lacks semantic q terms then some unknown_term else none)
unfolding unknown_term_in
category-unknown_term_in semantic q [] = refl
category-unknown_term_in semantic q ((term, label) ∷ terms) =
    ground (arith, category-unknown_term_in semantic q terms)

category-ambiguous_metric :
    (q : String)
    → category_of (ambiguous_metric q) ≡ (
        if has_word q "sales" && not (has_any q sales_qualifiers)
        then some metric_definition
        else none)
unfolding ambiguous_metric
category-ambiguous_metric q = ground arith

category-unspecified_measure :
    (q : String)
    → category_of (unspecified_measure q) ≡ (
        if has_any q rank_words && (has_any q entity_words && not (has_any q measure_words))
        then some measure_unspecified
        else none)
unfolding unspecified_measure
category-unspecified_measure q = ground arith

category-entity_in_question :
    (q : String)
    → category_of (entity_in_question q) ≡ (
        if has_any q commerce_words && (has_word q "user" || has_word q "users")
        then some entity_reference
        else none)
unfolding entity_in_question
category-entity_in_question q = ground arith

-- the rules, one after the other
first_of-rules :
    (a b c d : Bool) (p q r s : AmbiguityCategory)
    → first_of
        (first_of
          (first_of (if a then some p else none) (if b then some q else none))
          (if c then some r else none))
        (if d then some s else none)
      ≡ (if a
          then some p
          else if b
          then some q
          else if c
          then some r
          else if d
          then some s
          else none)
first_of-rules a b c d p q r s = ground arith

-- The detector asks back exactly in the documented cases, with the category of the first rule that applies:
-- an undefined term, "sales" without a qualifier, a ranking of entities without a measure, a commerce
-- measure of users.
pub detect-category :
    (semantic : SemanticLayer) (question : String)
    → category_of (detect semantic question) ≡ documented semantic (lower question)
unfolding detect documented
detect-category semantic question =
    let q = lower question in
    let a = unknown_term_in semantic q undefined_terms in
    let ab = first_clarification a (ambiguous_metric q) in
    rw
      (
        category-first_clarification (first_clarification ab (unspecified_measure q))
            (entity_in_question q),
        category-first_clarification ab (unspecified_measure q),
        category-first_clarification a (ambiguous_metric q),
        category-unknown_term_in semantic q undefined_terms,
        category-ambiguous_metric q,
        category-unspecified_measure q,
        category-entity_in_question q,
      )
      (first_of-rules _ _ _ _ _ _ _ _)
