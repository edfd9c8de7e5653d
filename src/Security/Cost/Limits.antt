-- ===== src/Security/Cost/Limits.antt =====
-- When the cost analysis of src/text_to_sql/security/cost.py allows a statement, and the risk that it
-- reports.
use build_your_own_text2sql.Base.{
  Bool, true, false, not, ◌&&◌, ◌≡◌, ◌↔◌, ◌≢◌, refl, Option, none, some, arith, if◌then◌else◌, ltb,
  ◌∙◌, sym, String,
}
use build_your_own_text2sql.Base.Lists.{length}
use build_your_own_text2sql.Domain.Enums.{SqlDialect, is_postgres, high}
use build_your_own_text2sql.Sqlglot.{SqlGlot, NodeClass}
use build_your_own_text2sql.Security.Policy.{SecurityPolicyConfig}
use build_your_own_text2sql.Security.Cost.{
  Floats, PlanEstimate, unavailable, rows_only, rows_and_cost, CostReport, max_select_depth,
  projected_column_count, has_cartesian_product, reject_if, with_estimate, classify_risk,
  too_many_rows, finish, start_report, check_limits, analyze,
}

module _ (fl : Floats) where
  open fl use {Float}

  -- The rows that the analysis goes by: those that EXPLAIN estimates, on PostgreSQL alone.
  pub seen_rows : SqlDialect → Option (PlanEstimate Float) → Option Float
  seen_rows SqlDialect.sqlite engine = none
  seen_rows SqlDialect.postgres none = none
  seen_rows SqlDialect.postgres (some unavailable) = none
  seen_rows SqlDialect.postgres (some (rows_only rows)) = some rows
  seen_rows SqlDialect.postgres (some (rows_and_cost rows cost)) = some rows

  allowed-reject_if :
      (b : Bool) (c m : String) (r : CostReport Float)
      → (reject_if fl b c m r).allowed ≡ (r.allowed && not b)
  unfolding reject_if
  allowed-reject_if b c m r = ground arith

  -- A rejected report has high risk, and what a rejection leaves alone.
  Marked : CostReport Float → Type 0
  Marked r = r.allowed ≡ false → r.risk_level ≡ high

  reject_if-Marked :
      (b : Bool) (c m : String) (r : CostReport Float) → Marked r → Marked (reject_if fl b c m r)
  unfolding reject_if Marked
  reject_if-Marked true c m r h q = refl
  reject_if-Marked false c m r h q = h q

  estimated_rows-reject_if :
      (b : Bool) (c m : String) (r : CostReport Float)
      → (reject_if fl b c m r).estimated_rows ≡ r.estimated_rows
  unfolding reject_if
  estimated_rows-reject_if b c m r = ground arith

  module _ (config : SecurityPolicyConfig) (medium_threshold high_threshold : Float) where
    -- `finish` rejects on the estimate, and the risk is high exactly for what is rejected.
    finish-allowed :
        (r : CostReport Float)
        → (finish fl config medium_threshold high_threshold r).allowed ≡ (
            r.allowed
            && not (too_many_rows fl config medium_threshold high_threshold r.estimated_rows))
    unfolding finish reject_if
    finish-allowed r = ground arith

    classify_risk-high :
        (r : CostReport Float) (rows : Option Float)
        → too_many_rows fl config medium_threshold high_threshold rows ≡ false
        → classify_risk fl config medium_threshold high_threshold r rows ≢ high
    unfolding classify_risk too_many_rows
    classify_risk-high r none h = ground arith
    classify_risk-high r (some rows) h = ground arith

    finish-risk :
        (r : CostReport Float)
        → (r.allowed ≡ false → r.risk_level ≡ high)
        → ((finish fl config medium_threshold high_threshold r).allowed ≡ false)
          ↔ ((finish fl config medium_threshold high_threshold r).risk_level ≡ high)
    unfolding finish reject_if
    finish-risk r h = ground (arith, classify_risk-high r r.estimated_rows)

    module _ (sg : SqlGlot) where
      open sg use {Expression, find_all}

      -- The four hard limits on the shape of a statement.
      abbrev pub within_limits : Expression → Bool
      within_limits e =
          not (ltb config.max_joins (length (find_all e NodeClass.join)))
          && not (ltb config.max_subquery_depth (max_select_depth sg e))
          && not (ltb config.max_selected_columns (projected_column_count sg e))
          && not (has_cartesian_product sg e)

      -- the report before EXPLAIN
      limited : Expression → CostReport Float
      limited e =
          check_limits fl config medium_threshold high_threshold sg e
            (start_report fl config medium_threshold high_threshold sg e)

      check_limits-allowed :
          (e : Expression) (r : CostReport Float)
          → (check_limits fl config medium_threshold high_threshold sg e r).allowed ≡ (
              r.allowed
              && not (ltb config.max_joins r.join_count)
              && not (ltb config.max_subquery_depth r.subquery_depth)
              && not (ltb config.max_selected_columns r.selected_columns)
              && not (has_cartesian_product sg e))
      unfolding check_limits
      check_limits-allowed e r = simp allowed-reject_if

      check_limits-Marked :
          (e : Expression) (r : CostReport Float)
          → Marked r
          → Marked (check_limits fl config medium_threshold high_threshold sg e r)
      unfolding check_limits
      check_limits-Marked e r h =
          reject_if-Marked _ _ _ _
            (reject_if-Marked _ _ _ _ (reject_if-Marked _ _ _ _ (reject_if-Marked _ _ _ r h)))

      check_limits-rows :
          (e : Expression) (r : CostReport Float)
          → (check_limits fl config medium_threshold high_threshold sg e r).estimated_rows
            ≡ r.estimated_rows
      unfolding check_limits
      check_limits-rows e r = simp estimated_rows-reject_if

      -- the report with what EXPLAIN answered
      estimated : Expression → SqlDialect → Option (PlanEstimate Float) → CostReport Float
      estimated e dialect engine = elim engine [
        | none ↦ limited e
        | some plan ↦ if is_postgres dialect then with_estimate fl plan (limited e) else limited e
      ]

      record Estimated (q r : CostReport Float) (rows : Option Float) : Type 0 where
        allowed : q.allowed ≡ r.allowed
        risk : q.risk_level ≡ r.risk_level
        rows_seen : q.estimated_rows ≡ rows

      estimated-limited :
          (e : Expression) (dialect : SqlDialect) (engine : Option (PlanEstimate Float))
          → Estimated (estimated e dialect engine) (limited e) (seen_rows dialect engine)
      unfolding estimated limited seen_rows with_estimate start_report
      estimated-limited e SqlDialect.sqlite none = record {
        allowed = refl;
        risk = refl;
        rows_seen = check_limits-rows e _;
      }
      estimated-limited e SqlDialect.postgres none = record {
        allowed = refl;
        risk = refl;
        rows_seen = check_limits-rows e _;
      }
      estimated-limited e SqlDialect.sqlite (some plan) = record {
        allowed = refl;
        risk = refl;
        rows_seen = check_limits-rows e _;
      }
      estimated-limited e SqlDialect.postgres (some unavailable) = record {
        allowed = refl;
        risk = refl;
        rows_seen = check_limits-rows e _;
      }
      estimated-limited e SqlDialect.postgres (some (rows_only rows)) = record {
        allowed = refl;
        risk = refl;
        rows_seen = refl;
      }
      estimated-limited e SqlDialect.postgres (some (rows_and_cost rows cost)) = record {
        allowed = refl;
        risk = refl;
        rows_seen = refl;
      }

      analyze-estimated :
          (e : Expression) (dialect : SqlDialect) (engine : Option (PlanEstimate Float))
          → analyze fl config medium_threshold high_threshold sg e dialect engine
            ≡ finish fl config medium_threshold high_threshold (estimated e dialect engine)
      unfolding analyze estimated limited
      analyze-estimated e dialect engine = refl

      limited-allowed : (e : Expression) → (limited e).allowed ≡ within_limits e
      unfolding limited start_report
      limited-allowed e = check_limits-allowed e _

      limited-Marked : (e : Expression) → Marked (limited e)
      unfolding limited start_report Marked
      limited-Marked e = check_limits-Marked e _ (λ q. cc)

      -- The analysis allows a statement exactly when it is within the four limits and the estimate,
      -- if there is one, does not reach the high threshold; the risk is high exactly when it is
      -- rejected.
      pub analyze-allowed :
          (e : Expression) (dialect : SqlDialect) (engine : Option (PlanEstimate Float))
          → ((analyze fl config medium_threshold high_threshold sg e dialect engine).allowed ≡ (
              within_limits e
              && not (
                  too_many_rows fl config medium_threshold high_threshold
                    (seen_rows dialect engine))))
            × (((analyze fl config medium_threshold high_threshold sg e dialect engine).allowed
                  ≡ false)
                ↔ ((analyze fl config medium_threshold high_threshold sg e dialect
                      engine).risk_level
                    ≡ high))
      unfolding Marked
      analyze-allowed e dialect engine =
          let est = estimated-limited e dialect engine in
          rw (analyze-estimated e dialect engine) (
            finish-allowed (estimated e dialect engine)
                ∙ rw (est.allowed, est.rows_seen, limited-allowed e) refl,
            finish-risk (estimated e dialect engine)
                (λ q. est.risk ∙ limited-Marked e (sym est.allowed ∙ q)),
          )
