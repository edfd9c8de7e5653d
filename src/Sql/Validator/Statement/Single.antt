-- ===== src/Sql/Validator/Statement/Single.antt =====
-- What `validate` of src/text_to_sql/sql/validator.py lets through: one statement, accepted.
use build_your_own_text2sql.Base.{
  none, String, Bool, true, false, ◌≡◌, refl, Option, none, some, List, [], ◌∷◌, arith, ap, sym,
  ◌∙◌, inl, inr, ◌⊎◌,
}
use build_your_own_text2sql.Domain.Enums.{SqlDialect}
use build_your_own_text2sql.Domain.Tables.{DatabaseSchema}
use build_your_own_text2sql.Sqlglot.{SqlGlot}
use build_your_own_text2sql.Sql.Parser.{Outcome, error, done, parse_statements}
use build_your_own_text2sql.Sql.Validator.Config.{SqlValidator}
use build_your_own_text2sql.Sql.Validator.Comments.{has_comment_marker}
use build_your_own_text2sql.Sql.Validator.Findings.{
  ValidationOutcome, is_valid-add, report_if, is_valid-report_if, expression-IsClosed,
  report_if-keeps,
}
use build_your_own_text2sql.Sql.Validator.Statement.{
  check_expression, new_outcome, validate_statements, validate,
}
use build_your_own_text2sql.Sql.Validator.Statement.Verdict.{
  IsAccepted, check_expression-keeps, check_expression-IsAccepted,
}

pub Outcome-cases :
    {A : Type 0} (r : Outcome A) → ((x : Option String) × (r ≡ error x)) ⊎ ((a : A) × (r ≡ done a))
Outcome-cases (error x) = inl (x, refl)
Outcome-cases (done a) = inr (a, refl)

done-injective : {A : Type 0} {a b : A} → done a ≡ done b → a ≡ b
done-injective {a} h = ap (λ r. elim r [ error x ↦ a | done y ↦ y ]) h

module _ {E : Type 0} where
  invalid_absurd : (r o : ValidationOutcome E) → r ≡ o → r.is_valid ≡ false → o.is_valid ≡ true → ⊥
  invalid_absurd r o e f t = cc (sym f ∙ ap (λ x. x.is_valid) e ∙ t)

  not_marked :
      (b : Bool) (o : ValidationOutcome E) (c m : String) (l : Option String)
      → (report_if b c m l o).is_valid ≡ true
      → b ≡ false
  not_marked b o c m l h = ground (arith, is_valid-report_if b c m l o)

  report_if-false :
      (b : Bool) (o : ValidationOutcome E) (c m : String) (l : Option String)
      → b ≡ false
      → report_if b c m l o ≡ o
  unfolding report_if
  report_if-false b o c m l h = rw h refl

module _ (sg : SqlGlot) (iteration : List String → List String) (v : SqlValidator) where
  open sg use {Expression}

  -- The only outcome of `validate` that is valid is that of one accepted statement.
  pub record IsSingle (sql : String) (schema : DatabaseSchema) (es : List Expression)
      (o : ValidationOutcome Expression) : Type 0 where
    pub statement : Expression
    pub single : es ≡ statement ∷ []
    pub no_marker : has_comment_marker sql ≡ false
    pub accepted : IsAccepted sg iteration v statement schema
    pub expression : o.expression ≡ some statement
    pub outcome :
        o ≡ check_expression sg iteration v statement schema (new_outcome sg iteration v statement)

  expression-new_outcome : (e : Expression) → (new_outcome sg iteration v e).expression ≡ some e
  unfolding new_outcome
  expression-new_outcome e = refl

  expression-check_expression :
      (e : Expression) (schema : DatabaseSchema) (o : ValidationOutcome Expression)
      → o.expression ≡ some e
      → (check_expression sg iteration v e schema o).expression ≡ some e
  expression-check_expression e schema o h =
      check_expression-keeps sg iteration v (λ q. q.expression ≡ some e)
        (expression-IsClosed (some e)) (λ q ts k. k) (λ q cs k. k) e schema o h

  validate_statements-IsSingle :
      (sql : String) (schema : DatabaseSchema) (es : List Expression)
      (o : ValidationOutcome Expression)
      → validate_statements sg iteration v sql schema es ≡ done o
      → o.is_valid ≡ true
      → IsSingle sql schema es o
  unfolding validate_statements
  validate_statements-IsSingle sql schema [] o h q =
      absurd (invalid_absurd _ o (done-injective h) (is_valid-add _ _ _ _) q)
  validate_statements-IsSingle sql schema (e ∷ []) o h q =
      let same = done-injective h in
      let (before, accepted) =
        check_expression-IsAccepted sg iteration v e schema _ (ap (λ r. r.is_valid) same ∙ q) in
      let no_marker : has_comment_marker sql ≡ false =
        not_marked (has_comment_marker sql) (new_outcome sg iteration v e) _ _ _ before in
      let plain =
        report_if-false (has_comment_marker sql) (new_outcome sg iteration v e) "comment_present"
          "SQL comments are not allowed." none no_marker in
      record {
        statement = e;
        single = refl;
        no_marker = no_marker;
        accepted = accepted;
        expression =
            ap (λ r. r.expression) (sym same)
            ∙ expression-check_expression e schema _ (
                report_if-keeps (λ r. r.expression ≡ some e) (expression-IsClosed (some e)) _ _ _ _
                  _ (expression-new_outcome e));
        outcome = sym same ∙ ap (check_expression sg iteration v e schema) plain;
      }
  validate_statements-IsSingle sql schema (e ∷ f ∷ es) o h q =
      absurd (invalid_absurd _ o (done-injective h) (is_valid-add _ _ _ _) q)

  -- A valid outcome of `validate` is that of one accepted statement without a comment marker.
  pub validate-IsSingle :
      (sql : String) (dialect : SqlDialect) (schema : DatabaseSchema)
      (o : ValidationOutcome Expression)
      → validate sg iteration v sql dialect schema ≡ done o
      → o.is_valid ≡ true
      → (es : List Expression) × (parse_statements sg sql dialect ≡ done es)
        × IsSingle sql schema es o
  unfolding validate
  validate-IsSingle sql dialect schema o h q =
      elim (Outcome-cases (parse_statements sg sql dialect)) [
        | inl (reason, failed) ↦ absurd (cc (rw (failed, validate) at h))
        | inr (es, parsed) ↦ (
          es,
          parsed,
          validate_statements-IsSingle sql schema es o (rw (parsed, validate) at h) q,
        )
      ]
