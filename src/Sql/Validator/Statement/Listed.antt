-- ===== src/Sql/Validator/Statement/Listed.antt =====
-- The codes that `validate` of src/text_to_sql/sql/validator.py lists for a broken safety rule.
use mathlib.Core.Path.{subst}
use build_your_own_text2sql.Base.{
  String, Bool, true, false, ◌≡◌, ◌∙◌, sym, refl, Option, none, some, List, [], ◌∷◌, is_some,
}
use build_your_own_text2sql.Base.Lists.{any, find}
use build_your_own_text2sql.Base.Text.{contains}
use build_your_own_text2sql.Domain.Enums.{SqlDialect, is_read_only}
use build_your_own_text2sql.Domain.Models.{codes_of}
use build_your_own_text2sql.Domain.Tables.{DatabaseSchema}
use build_your_own_text2sql.Sqlglot.{SqlGlot}
use build_your_own_text2sql.Sql.Parser.{Outcome, error, done, parse_statements, classify_statement}
use build_your_own_text2sql.Sql.Validator.Comments.{has_comment_marker}
use build_your_own_text2sql.Sql.Validator.Config.{SqlValidator}
use build_your_own_text2sql.Sql.Validator.Findings.{
  ValidationOutcome, contains-add, code-IsClosed, report_if, report_if-keeps,
}
use build_your_own_text2sql.Sql.Validator.Statement.{
  is_some-find, is_forbidden, report_forbidden, check_structure, check_expression,
  validate_statements, validate,
}
use build_your_own_text2sql.Sql.Validator.Statement.Verdict.{
  after_structure-keeps, check_expression-keeps,
}

module _ {E : Type 0} where
  -- The outcome lists a code.
  abbrev pub Lists : String → ValidationOutcome E → Type 0
  Lists c o = contains (codes_of o.issues) c ≡ true

  report_if-Lists :
      (b : Bool) (c m : String) (l : Option String) (o : ValidationOutcome E)
      → b ≡ true
      → Lists c (report_if b c m l o)
  unfolding report_if
  report_if-Lists true c m l o h = contains-add o c m l
  report_if-Lists false c m l o h = cc

module _ (sg : SqlGlot) (iteration : List String → List String) (v : SqlValidator) where
  open sg use {Expression, Node, walk, has_comments}

  -- What is wrong with the statements of a text, and the code for it.
  pub data Broken (sql : String) : List Expression → String → Type 0 where
    no_statement : Broken sql [] "multiple_statements"
    several :
        {e f : Expression} {es : List Expression} → Broken sql (e ∷ f ∷ es) "multiple_statements"
    marked :
        {e : Expression} → has_comment_marker sql ≡ true → Broken sql (e ∷ []) "comment_present"
    commented :
        {e : Expression} → any has_comments (walk e) ≡ true → Broken sql (e ∷ []) "comment_present"
    prohibited :
        {e : Expression}
        → any (is_forbidden sg iteration v) (walk e) ≡ true
        → Broken sql (e ∷ []) "forbidden_statement"
    writing :
        {e : Expression}
        → is_read_only (classify_statement sg e) ≡ false
        → Broken sql (e ∷ []) "non_read_only_statement"

  report_forbidden-Lists :
      (n : Option Node) (o : ValidationOutcome Expression)
      → is_some n ≡ true
      → Lists "forbidden_statement" (report_forbidden sg iteration v n o)
  unfolding report_forbidden
  report_forbidden-Lists none o h = cc
  report_forbidden-Lists (some n) o h = contains-add o _ _ _

  report_forbidden-keeps :
      (c : String) (n : Option Node) (o : ValidationOutcome Expression)
      → Lists c o
      → Lists c (report_forbidden sg iteration v n o)
  unfolding report_forbidden
  report_forbidden-keeps c none o h = h
  report_forbidden-keeps c (some n) o h = code-IsClosed c o _ _ _ h

  commented-Lists :
      (e : Expression) (o : ValidationOutcome Expression)
      → any has_comments (walk e) ≡ true
      → Lists "comment_present" (check_structure sg iteration v e o)
  unfolding check_structure
  commented-Lists e o h =
      let c : String = "comment_present" in
      report_if-keeps (Lists c) (code-IsClosed c) _ _ _ _ _ (report_if-Lists _ c _ _ _ h)

  prohibited-Lists :
      (e : Expression) (o : ValidationOutcome Expression)
      → any (is_forbidden sg iteration v) (walk e) ≡ true
      → Lists "forbidden_statement" (check_structure sg iteration v e o)
  unfolding check_structure
  prohibited-Lists e o h =
      let c : String = "forbidden_statement" in
      report_if-keeps (Lists c) (code-IsClosed c) _ _ _ _ _ (
        report_if-keeps (Lists c) (code-IsClosed c) _ _ _ _ _ (
          report_forbidden-Lists (find (is_forbidden sg iteration v) (walk e)) _
            (is_some-find (is_forbidden sg iteration v) (walk e) ∙ h)))

  writing-Lists :
      (e : Expression) (o : ValidationOutcome Expression)
      → is_read_only (classify_statement sg e) ≡ false
      → Lists "non_read_only_statement" (check_structure sg iteration v e o)
  unfolding check_structure
  writing-Lists e o h =
      let c : String = "non_read_only_statement" in
      report_if-keeps (Lists c) (code-IsClosed c) _ _ _ _ _ (
        report_if-keeps (Lists c) (code-IsClosed c) _ _ _ _ _ (
          report_forbidden-keeps c (find (is_forbidden sg iteration v) (walk e)) _
            (report_if-Lists _ c _ _ _ (rw h refl))))

  -- a code that the first step lists
  checked-Lists :
      (c : String) (e : Expression) (schema : DatabaseSchema) (o : ValidationOutcome Expression)
      → Lists c (check_structure sg iteration v e o)
      → Lists c (check_expression sg iteration v e schema o)
  checked-Lists c e schema o h =
      after_structure-keeps sg iteration v (Lists c) (code-IsClosed c) (λ o' ts k. k) (λ o' cs k. k)
        e schema o h

  -- what a result of `validate` satisfies if there is an outcome
  Finished : String → Outcome (ValidationOutcome Expression) → Type 0
  Finished c (error reason) = Unit
  Finished c (done o) = Lists c o

  validate_statements-Lists :
      (sql : String) (schema : DatabaseSchema) (es : List Expression) (c : String)
      → Broken sql es c
      → Finished c (validate_statements sg iteration v sql schema es)
  unfolding validate_statements Finished
  validate_statements-Lists sql schema [] c no_statement = contains-add _ _ _ _
  validate_statements-Lists sql schema (e ∷ f ∷ es) c several = contains-add _ _ _ _
  validate_statements-Lists sql schema (e ∷ []) c (marked h) =
      check_expression-keeps sg iteration v (Lists c) (code-IsClosed c) (λ o' ts k. k)
        (λ o' cs k. k) e schema _ (report_if-Lists _ c _ _ _ h)
  validate_statements-Lists sql schema (e ∷ []) c (commented h) =
      checked-Lists c e schema _ (commented-Lists e _ h)
  validate_statements-Lists sql schema (e ∷ []) c (prohibited h) =
      checked-Lists c e schema _ (prohibited-Lists e _ h)
  validate_statements-Lists sql schema (e ∷ []) c (writing h) =
      checked-Lists c e schema _ (writing-Lists e _ h)

  -- `validate` lists the code of what is wrong.
  pub validate-Lists :
      (sql : String) (dialect : SqlDialect) (schema : DatabaseSchema) (es : List Expression)
      (o : ValidationOutcome Expression) (c : String)
      → parse_statements sg sql dialect ≡ done es
      → validate sg iteration v sql dialect schema ≡ done o
      → Broken sql es c
      → Lists c o
  unfolding validate Finished
  validate-Lists sql dialect schema es o c parsed result broken =
      let here : validate sg iteration v sql dialect schema
          ≡ validate_statements sg iteration v sql schema es =
        rw (parsed, validate) refl in
      subst (Finished c) (sym here ∙ result) (validate_statements-Lists sql schema es c broken)
