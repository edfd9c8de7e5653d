-- ===== src/Retrieval/Signals.antt =====
-- The signals of src/text_to_sql/retrieval/retriever.py: steps 1 to 3 of `retrieve`. A score is kept in
-- tenths, of which every weight is a multiple.
use build_your_own_text2sql.Base.{
  or_default, ℕ, ◌+◌, ◌*◌, min, String, Bool, none, some, List, [], ◌∷◌, ◌++◌, map, if◌then◌else◌,
}
use build_your_own_text2sql.Base.Lists.{length, filter, any}
use build_your_own_text2sql.Base.Text.{◌+s◌, contains, join, sorted, dedupe}
use build_your_own_text2sql.Base.Dict.{get, put}
use build_your_own_text2sql.Domain.Tables.{
  TableInfo, ColumnInfo, DatabaseSchema, table, table_key, truthy,
}
use build_your_own_text2sql.Semantic.{
  SemanticLayer, BusinessTerm, MetricDefinition, find_surface_forms, find_metrics,
}
use build_your_own_text2sql.Retrieval.Tokens.{tokenize}

abbrev w_table_name : ℕ
w_table_name = 50

abbrev w_column_name : ℕ
w_column_name = 20

abbrev w_comment : ℕ
w_comment = 10

abbrev w_glossary : ℕ
w_glossary = 40

abbrev w_metric : ℕ
w_metric = 40

-- the dictionaries `scores` and `reasons`
pub record Scores : Type 0 where
  pub points : List (String × ℕ)
  pub reasons : List (String × List String)

-- the closure `add`
unfoldable pub add_points : Scores → String → ℕ → String → Scores
unfolding get put
add_points s key amount reason = record {
  points = put s.points key (or_default 0 (get s.points key) + amount);
  reasons = put s.reasons key (or_default [] (get s.reasons key) ++ reason ∷ []);
}

-- `a & b`
common : List String → List String → List String
common a b = filter (contains b) a

meets_tokens : List String → String → Bool
unfolding tokenize
meets_tokens tokens text = any (contains tokens) (tokenize text)

name_signal : List String → TableInfo → Scores → Scores
unfolding common tokenize add_points table_key sorted join
name_signal tokens t s = elim (common tokens (tokenize t.name)) [
  | [] ↦ s
  | x ∷ xs ↦
      add_points s (table_key t) w_table_name
        ("table name matches '" +s join ", " (sorted (x ∷ xs)) +s "'")
]

column_signal : List String → TableInfo → Scores → Scores
unfolding meets_tokens add_points table_key sorted join dedupe
column_signal tokens t s =
    elim (dedupe
      (map (λ (c : ColumnInfo). c.name) (filter (λ c. meets_tokens tokens c.name) t.columns))) [
        | [] ↦ s
        | x ∷ xs ↦
            add_points s (table_key t) (w_column_name * min (length (x ∷ xs)) 3)
              ("columns match: " +s join ", " (sorted (x ∷ xs)))
      ]

comment_signal : List String → TableInfo → Scores → Scores
unfolding meets_tokens add_points table_key
comment_signal tokens t s =
    if truthy t.comment
    then (if meets_tokens tokens (or_default "" t.comment)
        then add_points s (table_key t) w_comment "description matches question terms"
        else s)
    else s

table_signals : List String → Scores → List TableInfo → Scores
unfolding name_signal column_signal comment_signal
table_signals tokens s [] = s
table_signals tokens s (t ∷ ts) =
    table_signals tokens (comment_signal tokens t (column_signal tokens t (name_signal tokens t s)))
      ts

-- the tables that an item of the semantic layer names, those that the schema has
add_named : DatabaseSchema → ℕ → String → Scores → List String → Scores
unfolding table table_key add_points
add_named schema weight reason s [] = s
add_named schema weight reason s (name ∷ names) =
    add_named schema weight reason
      (elim (table schema name) [ none ↦ s | some t ↦ add_points s (table_key t) weight reason ])
      names

add_terms : DatabaseSchema → Scores → List BusinessTerm → Scores
unfolding add_named
add_terms schema s [] = s
add_terms schema s (term ∷ terms) =
    add_terms schema
      (add_named schema w_glossary ("glossary term '" +s term.term +s "'") s term.related_tables)
      terms

add_metrics : DatabaseSchema → Scores → List MetricDefinition → Scores
unfolding add_named
add_metrics schema s [] = s
add_metrics schema s (m ∷ ms) =
    add_metrics schema
      (add_named schema w_metric ("metric '" +s m.name +s "' requires this table") s
        m.required_tables)
      ms

-- steps 1 to 3
unfoldable pub score_tables : SemanticLayer → String → DatabaseSchema → Scores
unfolding table_signals add_terms add_metrics tokenize find_surface_forms find_metrics
score_tables semantic question schema =
    let lexical =
      table_signals (tokenize question) (record { points = []; reasons = [] }) schema.tables in
    add_metrics schema (add_terms schema lexical (find_surface_forms semantic question))
      (find_metrics semantic question)
