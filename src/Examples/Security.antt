-- ===== src/Examples/Security.antt =====
-- The theorems on classification, policy, tenant predicates, cost, repair, errors and identifiers.
use build_your_own_text2sql.Base.{
  ◌≤◌, ◌≡◌, ◌↔◌, refl, true, false, not, ◌&&◌, String, none, some, List, [], ◌∷◌, map, arith, inl,
  inr, ap, ◌⊎◌, ◌++◌,
}
use build_your_own_text2sql.Base.Lists.{all, Member, Member-append_left, Member-append_right}
use build_your_own_text2sql.Base.Text.{contains, lower}
use build_your_own_text2sql.Domain.Enums.{SqlDialect, DataClassification, high}
use build_your_own_text2sql.Domain.Models.{ValidationIssue}
use build_your_own_text2sql.Sqlglot.{Predicate}
use build_your_own_text2sql.Security.Classification.{
  can_view, permitted, can_view-permitted, can_view_mono,
}
use build_your_own_text2sql.Security.Policy.{
  enforce, table_allowed, column_allowed, allowed-enforce,
}
use build_your_own_text2sql.Security.Rewriter.{build_predicate, qualifier_of, rewrite}
use build_your_own_text2sql.Security.Rewriter.Scoped.{WhereLaws, IsTenantTest, rewrite-scoped_iff}
use build_your_own_text2sql.Security.Cost.{analyze, too_many_rows, rows_only}
use build_your_own_text2sql.Security.Cost.Limits.{within_limits, seen_rows, analyze-allowed}
use build_your_own_text2sql.Application.Failure.{
  failure_error, IsClassified, failure_error-IsClassified,
}
use build_your_own_text2sql.Common.Errors.{
  provider_timeout, class_retryable, http_status, class_retryable-http_status,
}
use build_your_own_text2sql.Common.Ids.{
  IsSanitized, sanitize_correlation_id, sanitize_correlation_id-IsSanitized,
}
use build_your_own_text2sql.Examples.Sample.{
  flat_library, FlatNode, select_node, table_node, names_query, shop, viewer, policy_config,
  whole_numbers,
}

can_view-permitted_example :
    can_view DataClassification.pii ("Analyst" ∷ "PII_read" ∷ [])
    ≡ permitted DataClassification.pii (map lower ("Analyst" ∷ "PII_read" ∷ []))
can_view-permitted_example = can_view-permitted DataClassification.pii ("Analyst" ∷ "PII_read" ∷ [])

-- each role of the first list is one of the second
analyst_roles :
    (r : String)
    → contains (map lower ("analyst" ∷ [])) r ≡ true
    → contains (map lower ("viewer" ∷ "analyst" ∷ [])) r ≡ true
unfolding lower
analyst_roles r h = ground arith

can_view_mono_example : can_view DataClassification.financial ("viewer" ∷ "analyst" ∷ []) ≡ true
unfolding can_view
can_view_mono_example =
    can_view_mono DataClassification.financial ("analyst" ∷ []) ("viewer" ∷ "analyst" ∷ [])
      analyst_roles refl

allowed-enforce_example :
    (enforce policy_config ("customers" ∷ []) ("customers.name" ∷ []) shop viewer).allowed ≡ (
      all (table_allowed policy_config) ("customers" ∷ [])
      && all (column_allowed shop viewer) ("customers.name" ∷ []))
allowed-enforce_example =
    allowed-enforce policy_config ("customers" ∷ []) ("customers.name" ∷ []) shop viewer

-- the members of a list with one more at its end
Member-concat :
    {A : Type 0} (xs : List A) (x y : A) → Member y (xs ++ x ∷ []) ↔ (Member y xs ⊎ (y ≡ x))
Member-concat xs x y = (
  last_or xs,
  λ m. elim m [
    | inl old ↦ Member-append_left y xs (x ∷ []) old
    | inr new ↦ Member-append_right y xs (x ∷ []) (inl new)
  ],
)
  where
    last_or : (zs : List _) → Member y (zs ++ x ∷ []) → Member y zs ⊎ (y ≡ x)
    last_or [] (inl e) = inr e
    last_or [] (inr m) = absurd m
    last_or (z ∷ zs) (inl e) = inl (inl e)
    last_or (z ∷ zs) (inr m) = elim (last_or zs m) [ inl old ↦ inl (inr old) | inr new ↦ inr new ]

abbrev where_laws : WhereLaws flat_library
where_laws = record {
  Joins = λ e s q. Member (s, q) e.filters;
  appended = λ e s r p q. (
    λ m. elim ((Member-concat e.filters (s, p) (r, q)).0 m) [
      | inl old ↦ inl old
      | inr new ↦
          inr
            (ap (λ (x : FlatNode × Predicate). x.0) new, ap (λ (x : FlatNode × Predicate). x.1) new)
    ],
    λ m.
        (Member-concat e.filters (s, p) (r, q)).1
          (elim m [ inl old ↦ inl old | inr (here, test) ↦ inr (λ i. (here i, test i)) ]),
  );
}

abbrev tenant_test : Predicate
tenant_test =
    build_predicate (qualifier_of flat_library (table_node "customers" "c")) "tenant_id" "42"

rewrite-scoped_iff_example :
    Member (select_node, tenant_test) (rewrite flat_library names_query shop "42").0.filters ↔ (
      Member (select_node, tenant_test) names_query.filters
      ⊎ IsTenantTest flat_library names_query shop "42" select_node tenant_test)
rewrite-scoped_iff_example =
    rewrite-scoped_iff flat_library where_laws names_query shop "42" select_node tenant_test

analyze-allowed_example :
    ((analyze whole_numbers policy_config 1000 100000 flat_library names_query SqlDialect.postgres
        (some (rows_only 200000))).allowed
      ≡ (within_limits whole_numbers policy_config 1000 100000 flat_library names_query
          && not (
              too_many_rows whole_numbers policy_config 1000 100000
                (seen_rows whole_numbers SqlDialect.postgres (some (rows_only 200000))))))
    × (((analyze whole_numbers policy_config 1000 100000 flat_library names_query
            SqlDialect.postgres
            (some (rows_only 200000))).allowed
          ≡ false)
        ↔ ((analyze whole_numbers policy_config 1000 100000 flat_library names_query
              SqlDialect.postgres
              (some (rows_only 200000))).risk_level
            ≡ high))
analyze-allowed_example =
    analyze-allowed whole_numbers policy_config 1000 100000 flat_library names_query
      SqlDialect.postgres (some (rows_only 200000))

abbrev denied_issues : List ValidationIssue
denied_issues =
    record { code = "unknown_table"; message = "m"; location = none }
    ∷ record { code = "column_denied"; message = "n"; location = none }
    ∷ []

failure_error-IsClassified_example :
    IsClassified ("unknown_table" ∷ "column_denied" ∷ []) (failure_error denied_issues 2).class
failure_error-IsClassified_example = failure_error-IsClassified denied_issues 2

class_retryable-http_status_example : 500 ≤ http_status provider_timeout
unfolding class_retryable
class_retryable-http_status_example = class_retryable-http_status provider_timeout refl

sanitize_correlation_id-IsSanitized_example :
    IsSanitized "00ff" (sanitize_correlation_id "00ff" (some "abc\n<x>"))
sanitize_correlation_id-IsSanitized_example =
    sanitize_correlation_id-IsSanitized "00ff" (some "abc\n<x>")
