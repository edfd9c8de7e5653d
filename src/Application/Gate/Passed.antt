-- ===== src/Application/Gate/Passed.antt =====
-- What a candidate that passed the gate satisfies.
use build_your_own_text2sql.Base.{
  ℕ, String, Bool, true, false, ◌≡◌, refl, Option, none, some, List, [], ◌∷◌, arith, inl, inr,
  if◌then◌else◌, sym, ap, ◌∙◌,
}
use build_your_own_text2sql.Domain.Enums.{SqlDialect}
use build_your_own_text2sql.Domain.Models.{AuthContext}
use build_your_own_text2sql.Domain.Tables.{DatabaseSchema}
use build_your_own_text2sql.Sql.Parser.{done, parse_statements}
use build_your_own_text2sql.Sql.Validator.Findings.{ValidationOutcome}
use build_your_own_text2sql.Sql.Validator.Statement.{validate, validate_expression}
use build_your_own_text2sql.Sql.Validator.Statement.Single.{validate-IsSingle, Outcome-cases}
use build_your_own_text2sql.Sql.Validator.Statement.Verdict.{
  IsAccepted, is_valid-validate_expression_iff,
}
use build_your_own_text2sql.Sql.Normalizer.{normalize_sql}
use build_your_own_text2sql.Security.Policy.{enforce, PolicyDecision}
use build_your_own_text2sql.Security.Cost.{analyze, CostReport}
use build_your_own_text2sql.Application.Platform.{Platform}
use build_your_own_text2sql.Application.Gate.{
  Secured, refused, cost_step, revalidate_step, final_expression, rewrite_step, policy_step,
  validation_step, secure_candidate, refused_after,
}

-- One test of the gate: what follows from its success.
if-ok :
    {F : Type 0} (b : Bool) (yes_case no_case : Secured F)
    → no_case.ok ≡ false
    → (if b then yes_case else no_case).ok ≡ true
    → (b ≡ true) × ((if b then yes_case else no_case) ≡ yes_case)
if-ok true s t n h = (refl, refl)
if-ok false s t n h = cc

module _ (p : Platform) (dialect : SqlDialect) (schema : DatabaseSchema) (auth : AuthContext)
    (max_rows : ℕ) where
  open p use {
    sqlglot, floats, iteration, validator, security, medium_threshold, high_threshold, explain,
  }

  -- The cost report of a statement.
  abbrev pub cost_of : sqlglot.Expression → CostReport floats.Float
  cost_of e =
      analyze floats security medium_threshold high_threshold sqlglot e dialect
        (some (explain (normalize_sql sqlglot e dialect false)))

  -- The statement that a candidate text holds, and what the gate has established.
  pub record IsPassed (sql : String) (s : Secured floats.Float) : Type 0 where
    pub statement : sqlglot.Expression
    pub outcome : ValidationOutcome sqlglot.Expression
    pub single : parse_statements sqlglot sql dialect ≡ done (statement ∷ [])
    pub validated : validate sqlglot iteration validator sql dialect schema ≡ done outcome
    pub valid : outcome.is_valid ≡ true
    pub authorized :
        (enforce security outcome.referenced_tables outcome.referenced_columns schema auth).allowed
        ≡ true
    pub accepted :
        IsAccepted sqlglot iteration validator
          (final_expression p dialect schema auth max_rows statement)
          schema
    pub affordable :
        (cost_of (final_expression p dialect schema auth max_rows statement)).allowed ≡ true
    pub rendered :
        s.final_sql
        ≡ some (
            normalize_sql sqlglot
              (final_expression p dialect schema auth max_rows statement)
              dialect
              false)

  module _ (sql : String) where
    cost_step-ok :
        (r : ValidationOutcome sqlglot.Expression) (applied : List String) (text : String)
        (cost : CostReport floats.Float)
        → (cost_step p dialect schema auth max_rows r applied text cost).ok ≡ true
        → (cost.allowed ≡ true)
          × ((cost_step p dialect schema auth max_rows r applied text cost).final_sql ≡ some text)
    unfolding cost_step refused
    cost_step-ok r applied text cost h = ground arith

    revalidate_step-ok :
        (e : sqlglot.Expression) (applied : List String) (r : ValidationOutcome sqlglot.Expression)
        → (revalidate_step p dialect schema auth max_rows e applied r).ok ≡ true
        → (r.is_valid ≡ true)
          × ((cost_of e).allowed ≡ true)
          × ((revalidate_step p dialect schema auth max_rows e applied r).final_sql
              ≡ some (normalize_sql sqlglot e dialect false))
    unfolding revalidate_step refused
    revalidate_step-ok e applied r h =
        ground (arith, cost_step-ok r applied (normalize_sql sqlglot e dialect false) (cost_of e))

    policy_step-ok :
        (o : ValidationOutcome sqlglot.Expression) (e : sqlglot.Expression) (d : PolicyDecision)
        → (policy_step p dialect schema auth max_rows o e d).ok ≡ true
        → (d.allowed ≡ true)
          × (policy_step p dialect schema auth max_rows o e d
              ≡ rewrite_step p dialect schema auth max_rows e)
    unfolding policy_step refused refused_after
    policy_step-ok o e d h = if-ok d.allowed _ _ refl h

    validation_step-ok :
        (o : ValidationOutcome sqlglot.Expression) (x : Option sqlglot.Expression)
        → (validation_step p dialect schema auth max_rows o x).ok ≡ true
        → (o.is_valid ≡ true)
    unfolding validation_step refused refused_after
    validation_step-ok o none h = cc
    validation_step-ok o (some e) h = (if-ok o.is_valid _ _ refl h).0

    validation_step-some :
        (o : ValidationOutcome sqlglot.Expression) (e : sqlglot.Expression)
        → o.is_valid ≡ true
        → validation_step p dialect schema auth max_rows o (some e)
          ≡ policy_step p dialect schema auth max_rows o e
              (enforce security o.referenced_tables o.referenced_columns schema auth)
    unfolding validation_step
    validation_step-some o e valid = rw valid refl

    validated-IsPassed :
        (o : ValidationOutcome sqlglot.Expression) (s : Secured floats.Float)
        → validate sqlglot iteration validator sql dialect schema ≡ done o
        → validation_step p dialect schema auth max_rows o o.expression ≡ s
        → s.ok ≡ true
        → IsPassed sql s
    unfolding rewrite_step
    validated-IsPassed o s validated same h =
        let valid = validation_step-ok o o.expression (ap (λ r. r.ok) same ∙ h) in
        let (es, parsed, one) =
          validate-IsSingle sqlglot iteration validator sql dialect schema o validated valid in
        let e = one.statement in
        let final = final_expression p dialect schema auth max_rows e in
        let to_policy =
          sym (validation_step-some o e valid)
          ∙ (sym (ap (validation_step p dialect schema auth max_rows o) one.expression) ∙ same) in
        let (allowed, to_rewrite) = policy_step-ok o e _ (ap (λ r. r.ok) to_policy ∙ h) in
        let passed = sym to_rewrite ∙ to_policy in
        let (revalid, cheap, text) =
          revalidate_step-ok final _ (validate_expression sqlglot iteration validator final schema)
            (ap (λ r. r.ok) passed ∙ h) in
        record {
          statement = e;
          outcome = o;
          single = parsed ∙ ap done one.single;
          validated = validated;
          valid = valid;
          authorized = allowed;
          accepted =
              (is_valid-validate_expression_iff sqlglot iteration validator final schema).0 revalid;
          affordable = cheap;
          rendered = ap (λ r. r.final_sql) (sym passed) ∙ text;
        }

  -- A candidate that the gate lets through is the text of one statement, whose validation is valid
  -- and whose tables and columns the policy allows; the statement with its tenant predicates and its
  -- limit is accepted by the validator and allowed by the cost analysis, and it is what the final
  -- text renders.
  pub secure_candidate-IsPassed :
      (sql : String)
      → (secure_candidate p dialect schema auth max_rows sql).ok ≡ true
      → IsPassed sql (secure_candidate p dialect schema auth max_rows sql)
  unfolding secure_candidate refused
  secure_candidate-IsPassed sql h =
      elim (Outcome-cases (validate sqlglot iteration validator sql dialect schema)) [
        | inl (reason, failed) ↦ absurd (cc (rw (failed, secure_candidate) at h))
        | inr (o, validated) ↦
            validated-IsPassed sql o _ validated (sym (rw (validated, secure_candidate) refl)) h
      ]
