-- ===== src/Domain/Serialized.antt =====
-- `serialize_for_prompt` of src/text_to_sql/domain/schema_models.py, and the listings of all tables.
pub mod Budget
use Prim.Native.Char.{Char}
use build_your_own_text2sql.Base.{
  ℕ, String, Bool, not, Option, none, some, List, [], ◌∷◌, ◌++◌, map, ltb, if◌then◌else◌,
}
use build_your_own_text2sql.Base.Text.{◌=s=◌, ◌+s◌, is_space, join, upper, text_length}
use build_your_own_text2sql.Base.Words.{take_text, rstrip, runs_of}
use build_your_own_text2sql.Domain.Enums.{classification_value, is_sensitive}
use build_your_own_text2sql.Domain.Tables.{
  ForeignKeyRef, ColumnInfo, TableInfo, DatabaseSchema, qualified_name, truthy,
}

-- `iter_columns`
columns_of : List TableInfo → List (TableInfo × ColumnInfo)
columns_of [] = []
columns_of (t ∷ ts) = map (λ (c : ColumnInfo). (t, c)) t.columns ++ columns_of ts

unfoldable pub iter_columns : DatabaseSchema → List (TableInfo × ColumnInfo)
unfolding columns_of
iter_columns s = columns_of s.tables

-- `DatabaseSchema.table_names` and `TableInfo.column_names`
unfoldable pub table_names : DatabaseSchema → List String
unfolding qualified_name
table_names s = map qualified_name s.tables

unfoldable pub column_names : TableInfo → List String
column_names t = map (λ (c : ColumnInfo). c.name) t.columns

abbrev pub max_comment_len : ℕ
max_comment_len = 200

-- a character that `split()` keeps
abbrev pub is_solid : Char → Bool
is_solid c = not (is_space c)

unfoldable pub flatten_comment : String → String
unfolding runs_of is_space join take_text text_length
flatten_comment comment =
    let flat = join " " (runs_of is_solid "" comment) in
    if ltb max_comment_len (text_length flat) then take_text max_comment_len flat +s "…" else flat

-- `f"  -- {_flatten_comment(…)}"`, where there is a comment
comment_part : Option String → String
unfolding flatten_comment
comment_part none = ""
comment_part (some c) = if truthy (some c) then "  -- " +s flatten_comment c else ""

table_header : TableInfo → String
unfolding qualified_name comment_part
table_header t =
    (if t.kind =s= "view" then "VIEW " else "TABLE ") +s qualified_name t +s comment_part t.comment

flags_of : ColumnInfo → List String
unfolding is_sensitive classification_value upper
flags_of c =
    c.data_type ∷ (if c.is_primary_key then "PK" ∷ [] else [])
    ++ (if c.nullable then [] else "NOT NULL" ∷ [])
    ++ (if is_sensitive c.classification
        then ("[" +s upper (classification_value c.classification) +s "]") ∷ []
        else [])

column_line : ColumnInfo → String
unfolding flags_of comment_part join
column_line c = "  - " +s c.name +s " (" +s join ", " (flags_of c) +s ")" +s comment_part c.comment

foreign_key_line : ForeignKeyRef → String
unfolding join
foreign_key_line fk =
    "  FK ("
    +s join ", " fk.columns
    +s ") -> "
    +s fk.referred_table
    +s " ("
    +s join ", " fk.referred_columns
    +s ")"

table_lines : List TableInfo → List String
unfolding table_header column_line foreign_key_line
table_lines [] = []
table_lines (t ∷ ts) =
    (table_header t ∷ map column_line t.columns)
    ++ map foreign_key_line t.foreign_keys
    ++ "" ∷ table_lines ts

abbrev pub truncation_marker : String
truncation_marker = "\n-- [schema truncated to fit token budget]"

-- the text within the budget
unfoldable pub within_budget : ℕ → String → String
unfolding take_text rstrip text_length
within_budget max_chars text =
    if ltb max_chars (text_length text)
    then rstrip (take_text max_chars text) +s truncation_marker
    else text

unfoldable pub serialize_for_prompt : DatabaseSchema → ℕ → String
unfolding table_lines within_budget rstrip join
serialize_for_prompt s max_chars =
    within_budget max_chars (rstrip (join "\n" (table_lines s.tables)))
