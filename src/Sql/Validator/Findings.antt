-- ===== src/Sql/Validator/Findings.antt =====
-- `ValidationOutcome` of src/text_to_sql/sql/validator.py.
use text.Mathlib.TextPositions.{eq_refl}
use build_your_own_text2sql.Base.{
  String, Bool, true, false, not, ◌&&◌, ◌||◌, ◌≡◌, refl, Option, none, some, List, [], ◌∷◌, ◌++◌,
  arith, inl, inr, Bool-cases, if◌then◌else◌,
}
use build_your_own_text2sql.Base.Lists.{any}
use build_your_own_text2sql.Base.Text.{◌=s=◌, contains}
use build_your_own_text2sql.Domain.Enums.{StatementType}
use build_your_own_text2sql.Domain.Models.{ValidationIssue, codes_of}

pub record ValidationOutcome (E : Type 0) : Type 0 where
  pub is_valid : Bool
  pub statement_type : StatementType
  pub expression : Option E
  pub referenced_tables : List String
  pub referenced_columns : List String
  pub issues : List ValidationIssue

same_location : Option String → Option String → Bool
same_location none none = true
same_location (some s) (some t) = s =s= t
same_location _ _ = false

unfoldable pub has_issue : List ValidationIssue → String → Option String → Bool
unfolding same_location
has_issue issues code location =
    any (λ i. i.code =s= code && same_location i.location location) issues

abbrev is_nil : List ValidationIssue → Bool
is_nil [] = true
is_nil (i ∷ is) = false

is_nil-concat : (xs : List ValidationIssue) (i : ValidationIssue) → is_nil (xs ++ i ∷ []) ≡ false
is_nil-concat [] i = refl
is_nil-concat (x ∷ xs) i = refl

is_nil_of_has_issue :
    (xs : List ValidationIssue) (c : String) (l : Option String)
    → has_issue xs c l ≡ true
    → is_nil xs ≡ false
unfolding has_issue
is_nil_of_has_issue [] c l h = cc
is_nil_of_has_issue (x ∷ xs) c l h = refl

-- An added code is listed, whether or not the issue was there.
has_issue-contains :
    (xs : List ValidationIssue) (c : String) (l : Option String)
    → has_issue xs c l ≡ true
    → contains (codes_of xs) c ≡ true
unfolding has_issue
has_issue-contains [] c l h = cc
has_issue-contains (x ∷ xs) c l h = ground (arith, has_issue-contains xs c l)

pub contains-codes_of-concat :
    (xs : List ValidationIssue) (i : ValidationIssue) (c : String)
    → contains (codes_of (xs ++ i ∷ [])) c ≡ (contains (codes_of xs) c || (i.code =s= c))
contains-codes_of-concat [] i c = ground arith
contains-codes_of-concat (x ∷ xs) i c = ground (arith, contains-codes_of-concat xs i c)

module _ {E : Type 0} where
  -- the same finding at the same place is listed once
  unfoldable pub add : ValidationOutcome E → String → String → Option String → ValidationOutcome E
  unfolding has_issue
  add o code message location =
      if has_issue o.issues code location then record o { is_valid = false } else record o {
        is_valid = false;
        issues = o.issues ++ record { code = code; message = message; location = location } ∷ [];
      }

  -- `if test: outcome.add(…)`
  unfoldable pub report_if :
      Bool → String → String → Option String → ValidationOutcome E → ValidationOutcome E
  unfolding add
  report_if test code message location o = if test then add o code message location else o

  pub is_valid-add :
      (o : ValidationOutcome E) (c m : String) (l : Option String) → (add o c m l).is_valid ≡ false
  unfolding add
  is_valid-add o c m l = ground arith

  pub is_valid-report_if :
      (b : Bool) (c m : String) (l : Option String) (o : ValidationOutcome E)
      → (report_if b c m l o).is_valid ≡ (o.is_valid && not b)
  unfolding report_if
  is_valid-report_if true c m l o = rw (is_valid-add o c m l) (ground arith)
  is_valid-report_if false c m l o = ground arith

  -- An outcome is invalid exactly when it lists an issue.
  pub record IsConsistent (o : ValidationOutcome E) : Type 0 where
    pub agree : o.is_valid ≡ is_nil o.issues

  pub add-IsConsistent :
      (o : ValidationOutcome E) (c m : String) (l : Option String) → IsConsistent (add o c m l)
  unfolding add
  add-IsConsistent o c m l = elim (Bool-cases (has_issue o.issues c l)) [
    | inl old ↦ rw old (record { agree = rw (is_nil_of_has_issue o.issues c l old) })
    | inr new ↦ rw new (record { agree = rw is_nil-concat })
  ]

  pub contains-add :
      (o : ValidationOutcome E) (c m : String) (l : Option String)
      → contains (codes_of (add o c m l).issues) c ≡ true
  unfolding add
  contains-add o c m l = elim (Bool-cases (has_issue o.issues c l)) [
    | inl old ↦ rw old (has_issue-contains o.issues c l old)
    | inr new ↦ rw new (simp (contains-codes_of-concat, eq_refl) (ground arith))
  ]

  -- A predicate that `add` preserves, for the invariants of the checks.
  abbrev pub IsClosed : (ValidationOutcome E → Type 0) → Type 0
  IsClosed P = (o : ValidationOutcome E) (c m : String) (l : Option String) → P o → P (add o c m l)

  pub report_if-keeps :
      (P : ValidationOutcome E → Type 0)
      → IsClosed P
      → (b : Bool) (c m : String) (l : Option String) (o : ValidationOutcome E) → P o
      → P (report_if b c m l o)
  unfolding report_if
  report_if-keeps P closed true c m l o h = closed o c m l h
  report_if-keeps P closed false c m l o h = h

  pub IsConsistent-IsClosed : IsClosed IsConsistent
  IsConsistent-IsClosed o c m l h = add-IsConsistent o c m l

  pub expression-IsClosed : (x : Option E) → IsClosed (λ o. o.expression ≡ x)
  unfolding add
  expression-IsClosed x o c m l h = ground arith

  pub statement_type-IsClosed : (t : StatementType) → IsClosed (λ o. o.statement_type ≡ t)
  unfolding add
  statement_type-IsClosed t o c m l h = ground arith

  -- A code that is listed stays listed.
  pub code-IsClosed : (c : String) → IsClosed (λ o. contains (codes_of o.issues) c ≡ true)
  unfolding add
  code-IsClosed c o d m l h = elim (Bool-cases (has_issue o.issues d l)) [
    | inl old ↦ rw old h
    | inr new ↦ rw new (simp contains-codes_of-concat (ground arith))
  ]
