-- ===== src/Sql/Validator/Functions.antt =====
-- `_check_functions` of src/text_to_sql/sql/validator.py.
use build_your_own_text2sql.Base.{
  String, Bool, true, false, not, ◌∙◌, ◌&&◌, ◌≡◌, refl, none, some, List, [], ◌∷◌, arith,
  if◌then◌else◌,
}
use build_your_own_text2sql.Base.Lists.{all}
use build_your_own_text2sql.Base.Text.{◌+s◌, contains, lower}
use build_your_own_text2sql.Sqlglot.{SqlGlot, NodeClass}
use build_your_own_text2sql.Sql.Validator.Config.{SqlValidator}
use build_your_own_text2sql.Sql.Validator.Findings.{
  ValidationOutcome, report_if, is_valid-report_if, IsClosed, report_if-keeps,
}

-- Only an outcome that is invalid already has seen a denied name.
seen_invalid :
    (seen : List String) (b : Bool) (name : String)
    → (b ≡ true → seen ≡ [])
    → contains seen name ≡ true
    → b ≡ false
seen_invalid [] b name h c = cc
seen_invalid (x ∷ xs) b name h c = ground (arith, h)

module _ (sg : SqlGlot) (v : SqlValidator) where
  open sg use {Expression, Node, is_instance, find_all, this_text, sql_name, type_name}

  -- an anonymous function's own name, or the class's; `sql_name` may raise
  unfoldable pub function_name : Node → String
  unfolding lower
  function_name n =
      if is_instance n NodeClass.anonymous
      then lower (this_text n)
      else elim (sql_name n) [ some s ↦ lower s | none ↦ lower (type_name n) ]

  denied : Node → Bool
  denied n = contains v.denylist (function_name n)

  denial : Node → ValidationOutcome Expression → Bool → ValidationOutcome Expression
  unfolding report_if
  denial n o fresh =
      report_if fresh "denied_function" ("Function '" +s function_name n +s "' is not allowed.")
        (some ("function: " +s function_name n)) o

  check_function_list :
      List String → List Node → ValidationOutcome Expression → ValidationOutcome Expression
  unfolding denied denial
  check_function_list seen [] o = o
  check_function_list seen (n ∷ ns) o =
      let fresh = denied n && not (contains seen (function_name n)) in
      check_function_list (if fresh then function_name n ∷ seen else seen) ns (denial n o fresh)

  unfoldable pub check_functions :
      Expression → ValidationOutcome Expression → ValidationOutcome Expression
  unfolding check_function_list
  check_functions e = check_function_list [] (find_all e NodeClass.func)

  -- No function of the statement is on the denylist.
  unfoldable pub functions_ok : Expression → Bool
  unfolding denied function_name
  functions_ok e = all (λ n. not (denied n)) (find_all e NodeClass.func)

  is_valid-denial :
      (n : Node) (o : ValidationOutcome Expression) (fresh : Bool)
      → (denial n o fresh).is_valid ≡ (o.is_valid && not fresh)
  unfolding denial
  is_valid-denial n o fresh = is_valid-report_if fresh _ _ _ o

  -- The names seen were denied, so the outcome is invalid already.
  is_valid-check_function_list :
      (ns : List Node) (seen : List String) (o : ValidationOutcome Expression)
      → (o.is_valid ≡ true → seen ≡ [])
      → (check_function_list seen ns o).is_valid ≡ (o.is_valid && all (λ n. not (denied n)) ns)
  unfolding check_function_list
  is_valid-check_function_list [] seen o h = ground arith
  is_valid-check_function_list (n ∷ ns) seen o h =
      let fresh = denied n && not (contains seen (function_name n)) in
      is_valid-check_function_list ns _ (denial n o fresh)
        (λ q. ground (arith, is_valid-denial n o fresh, h))
      ∙ ground (arith, is_valid-denial n o fresh, seen_invalid seen o.is_valid (function_name n) h)

  pub is_valid-check_functions :
      (e : Expression) (o : ValidationOutcome Expression)
      → (check_functions e o).is_valid ≡ (o.is_valid && functions_ok e)
  unfolding check_functions functions_ok
  is_valid-check_functions e o =
      is_valid-check_function_list (find_all e NodeClass.func) [] o (λ _. refl)

  module _ (P : ValidationOutcome Expression → Type 0) (closed : IsClosed P) where
    check_function_list-keeps :
        (ns : List Node) (seen : List String) (o : ValidationOutcome Expression)
        → P o
        → P (check_function_list seen ns o)
    unfolding check_function_list denial
    check_function_list-keeps [] seen o h = h
    check_function_list-keeps (n ∷ ns) seen o h =
        check_function_list-keeps ns _ _
          (report_if-keeps P closed (denied n && not (contains seen (function_name n))) _ _ _ o h)

    pub check_functions-keeps :
        (e : Expression) (o : ValidationOutcome Expression) → P o → P (check_functions e o)
    unfolding check_functions
    check_functions-keeps e o h = check_function_list-keeps (find_all e NodeClass.func) [] o h
