-- ===== src/Semantic.antt =====
-- The semantic layer: src/text_to_sql/semantic/models.py.
pub mod Dates
use build_your_own_text2sql.Base.{
  ◌≡◌, refl, true, String, Bool, Option, none, some, List, [], ◌∷◌, ◌&&◌, not, if◌then◌else◌,
}
use build_your_own_text2sql.Base.Lists.{find, any}
use build_your_own_text2sql.Base.Text.{◌=s=◌, ◌+s◌, lower, strip, has_substring, contains}
use build_your_own_text2sql.Base.Dict.{get, put}
use build_your_own_text2sql.Domain.Enums.{DataClassification}

pub data TermKind : Type 0 where
  metric dimension entity filter : TermKind

pub record BusinessTerm : Type 0 where
  pub term : String
  pub kind : TermKind
  pub definition : String
  pub synonyms : List String
  pub related_tables : List String
  pub related_columns : List String

pub record MetricDefinition : Type 0 where
  pub name : String
  pub description : String
  pub sql_expression : String
  pub required_tables : List String
  pub default_filters : List String
  pub synonyms : List String

pub record ColumnAnnotation : Type 0 where
  pub table : String
  pub column : String
  pub classification : DataClassification
  pub comment : Option String
  pub sample_values : List String

pub record TableAnnotation : Type 0 where
  pub table : String
  pub comment : Option String
  pub tenant_column : Option String
  pub aliases : List String

pub record SemanticLayer : Type 0 where
  pub terms : List BusinessTerm
  pub metrics : List MetricDefinition
  pub column_annotations : List ColumnAnnotation
  pub table_annotations : List TableAnnotation
  pub default_date_fields : List (String × String)

unfoldable pub term_forms : BusinessTerm → List String
term_forms t = t.term ∷ t.synonyms

unfoldable pub metric_forms : MetricDefinition → List String
metric_forms m = m.name ∷ m.synonyms

-- the entries of one item under all its surface forms; a later form replaces an earlier one
unfoldable pub index_forms : {V : Type 0} → List (String × V) → List String → V → List (String × V)
unfolding lower put
index_forms idx [] v = idx
index_forms idx (form ∷ forms) v = index_forms (put idx (lower form) v) forms v

index_all : {V : Type 0} → (V → List String) → List (String × V) → List V → List (String × V)
index_all forms idx [] = idx
index_all forms idx (v ∷ vs) = index_all forms (index_forms idx (forms v) v) vs

unfoldable pub resolve_term : SemanticLayer → String → Option BusinessTerm
unfolding index_all get lower strip
resolve_term s text = get (index_all term_forms [] s.terms) (lower (strip text))

unfoldable pub resolve_metric : SemanticLayer → String → Option MetricDefinition
unfolding index_all get lower strip
resolve_metric s text = get (index_all metric_forms [] s.metrics) (lower (strip text))

unfoldable pub column_annotation : SemanticLayer → String → String → Option ColumnAnnotation
unfolding lower strip
column_annotation s table column =
    find
      (λ ann.
        (lower ann.table =s= lower (strip table)) && (lower ann.column =s= lower (strip column)))
      s.column_annotations

unfoldable pub table_annotation : SemanticLayer → String → Option TableAnnotation
unfolding lower strip
table_annotation s table = find (λ ann. lower ann.table =s= lower (strip table)) s.table_annotations

date_field : List (String × String) → String → Option String
unfolding lower
date_field [] t = none
date_field (p ∷ ps) t = if lower p.0 =s= t then some p.1 else date_field ps t

unfoldable pub default_date_field : SemanticLayer → String → Option String
unfolding date_field lower strip
default_date_field s table = date_field s.default_date_fields (lower (strip table))

-- `f" {form.lower()} " in f" {question.lower()} "`
unfoldable pub mentions : String → String → Bool
unfolding lower has_substring
mentions question form = has_substring (" " +s lower form +s " ") (" " +s lower question +s " ")

mentions_runs : mentions "how many active customers do we have" "Active Customers" ≡ true
unfolding mentions
mentions_runs = refl

-- the items that the question mentions in one of their forms, each name once
mentioned : {V : Type 0} → (V → List String) → (V → String) → String → List String → List V → List V
unfolding mentions
mentioned forms name question seen [] = []
mentioned forms name question seen (v ∷ vs) =
    let kept = mentioned forms name question (name v ∷ seen) vs in
    let rest = mentioned forms name question seen vs in
    if any (mentions question) (forms v) && not (contains seen (name v)) then v ∷ kept else rest

unfoldable pub find_surface_forms : SemanticLayer → String → List BusinessTerm
unfolding mentioned
find_surface_forms s question = mentioned term_forms (λ t. t.term) question [] s.terms

unfoldable pub find_metrics : SemanticLayer → String → List MetricDefinition
unfolding mentioned
find_metrics s question = mentioned metric_forms (λ m. m.name) question [] s.metrics
