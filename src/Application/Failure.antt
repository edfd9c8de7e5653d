-- ===== src/Application/Failure.antt =====
-- `_raise_for_failure` of src/text_to_sql/application/orchestrator.py: the public error for a
-- candidate that did not pass the gate.
use text.Mathlib.TextEquality.{eq_iff}
use build_your_own_text2sql.Base.{
  arith, ℕ, String, Bool, true, false, ◌≡◌, ◌↔◌, refl, ap, ◌∙◌, ◌||◌, List, [], ◌∷◌, ◌++◌,
  if◌then◌else◌,
}
use build_your_own_text2sql.Base.Text.{contains}
use build_your_own_text2sql.Base.Dict.{contains-append}
use build_your_own_text2sql.Common.Errors.{
  ErrorClass, authorization_denied, cost_rejected, sql_validation, repair_exhausted, EngineError,
  raise_error, issue_details,
}
use build_your_own_text2sql.Domain.Models.{ValidationIssue, codes_of, meets}
use build_your_own_text2sql.Application.Repair.{non_repairable_codes, meets-contains}

abbrev pub auth_codes : List String
auth_codes = "column_denied" ∷ "table_denied" ∷ "table_not_allowed" ∷ []

abbrev pub cost_codes : List String
cost_codes =
    "cartesian_product" ∷ "too_many_joins" ∷ "subquery_too_deep" ∷ "too_many_columns"
    ∷ "estimated_cost_too_high" ∷ []

abbrev pub security_codes : List String
security_codes =
    "non_read_only_statement" ∷ "forbidden_statement" ∷ "multiple_statements" ∷ "comment_present"
    ∷ "system_catalog_access" ∷ "cross_database_access" ∷ "schema_not_allowed" ∷ []

-- the class and the message, by precedence: authorization, cost, security
pub failure_class : List String → ErrorClass × String
failure_class codes =
    if meets codes auth_codes
    then (authorization_denied, "The query accesses data you are not permitted to read.")
    else (if meets codes cost_codes
        then (cost_rejected, "The query was rejected as too expensive or complex.")
        else (if meets codes security_codes
            then (sql_validation, "The generated SQL violated a safety rule.")
            else (
              repair_exhausted,
              "A valid query could not be produced within the allowed repair attempts.",
            )))

unfoldable pub failure_error : List ValidationIssue → ℕ → EngineError
unfolding raise_error
failure_error issues attempts =
    let c = failure_class (codes_of issues) in raise_error c.0 c.1 (issue_details issues attempts)

-- the hard codes are those with an error class of their own
hard_code-cases :
    (c : String)
    → contains non_repairable_codes c
      ≡ (contains security_codes c || (contains auth_codes c || contains cost_codes c))
hard_code-cases c =
    contains-append security_codes (auth_codes ++ cost_codes) c
    ∙ ap (λ b. contains security_codes c || b) (contains-append auth_codes cost_codes c)

interleave :
    (a b c x y z : Bool)
    → ((a || (b || c)) || (x || (y || z))) ≡ ((a || x) || ((b || y) || (c || z)))
interleave a b c x y z = ground arith

meets-hard :
    (codes : List String)
    → meets codes non_repairable_codes
      ≡ (meets codes security_codes || (meets codes auth_codes || meets codes cost_codes))
meets-hard [] = refl
meets-hard (c ∷ cs) = rw (hard_code-cases c) (
    rw (meets-hard cs) (
      interleave (contains security_codes c) (contains auth_codes c) (contains cost_codes c)
        (meets cs security_codes) (meets cs auth_codes) (meets cs cost_codes)))

meets-false :
    (codes other : List String)
    → ((c : String) → contains codes c ≡ true → contains other c ≡ false)
    → meets codes other ≡ false
meets-false [] other h = refl
meets-false (d ∷ ds) other h =
    ground (
      arith,
      h d (ground (arith, eq_iff d d)),
      meets-false ds other (λ c k. h c (ground (arith, k))),
    )

-- The class of an error, by the codes of the findings: denied access comes before excessive cost, and
-- that before a broken safety rule; repair is exhausted when there is no hard code.
pub record IsClassified (codes : List String) (k : ErrorClass) : Type 0 where
  pub denied :
      (c : String)
      → contains codes c ≡ true
      → contains auth_codes c ≡ true
      → k ≡ authorization_denied
  pub costly :
      (c : String)
      → ((d : String) → contains codes d ≡ true → contains auth_codes d ≡ false)
      → contains codes c ≡ true
      → contains cost_codes c ≡ true
      → k ≡ cost_rejected
  pub unsafe :
      (c : String)
      → ((d : String)
          → contains codes d ≡ true
          → (contains auth_codes d ≡ false) × (contains cost_codes d ≡ false))
      → contains codes c ≡ true
      → contains security_codes c ≡ true
      → k ≡ sql_validation
  pub exhausted : (k ≡ repair_exhausted) ↔ (meets codes non_repairable_codes ≡ false)

-- Every failure has the class of its findings: a code of denied access gives the class of denied
-- access, whatever else was found; else a code of excessive cost that of excessive cost; else a
-- broken safety rule that of a validation; and repair is reported as exhausted exactly when none of
-- the codes is one that repair planning takes for a hard rejection.
pub failure_error-IsClassified :
    (issues : List ValidationIssue) (attempts : ℕ)
    → IsClassified (codes_of issues) (failure_error issues attempts).class
unfolding failure_error failure_class
failure_error-IsClassified issues attempts =
    let codes = codes_of issues in
    record {
      denied = λ c h k. rw (meets-contains codes auth_codes c h k) refl;
      costly = λ c no_auth h k.
          rw (meets-false codes auth_codes no_auth)
            (rw (meets-contains codes cost_codes c h k) refl);
      unsafe = λ c no_other h k. rw (meets-false codes auth_codes (λ d m. (no_other d m).0)) (
          rw (meets-false codes cost_codes (λ d m. (no_other d m).1))
            (rw (meets-contains codes security_codes c h k) refl));
      exhausted = ground (arith, meets-hard codes);
    }
