-- ===== src/Sql/Parser.antt =====
-- Parsing and classification: src/text_to_sql/sql/parser.py. A raised `SQLParseError` is `error`,
-- with the reason of its details; a parse error without text has "parse error".
use Prim.Native.Char.{Char, code}
use Prim.Native.Nat.{zero, suc}
use build_your_own_text2sql.Base.{
  ℕ, String, Bool, ◌&&◌, ◌||◌, Option, none, some, List, [], ◌∷◌, leb, ◌==◌, if◌then◌else◌,
}
use build_your_own_text2sql.Base.Text.{◌=s=◌, is_empty, upper, strip}
use build_your_own_text2sql.Domain.Enums.{SqlDialect, StatementType}
use build_your_own_text2sql.Sqlglot.{SqlGlot, NodeClass, failed, parsed}

pub data Outcome (A : Type 0) : Type 0 where
  error : Option String → Outcome A
  done : A → Outcome A

-- `str.splitlines` ends a line at these
is_line_end : Char → Bool
is_line_end c =
    leb 10 (code c) && leb (code c) 13
    || leb 28 (code c) && leb (code c) 30
    || code c == 133
    || leb 8232 (code c) && leb (code c) 8233

first_chunk : ℕ → String → String
unfolding is_line_end
first_chunk zero s = ""
first_chunk (suc n) String.[] = ""
first_chunk (suc n) (String.◌∷◌ c s) = if is_line_end c then "" else String.◌∷◌ c (first_chunk n s)

-- `_first_line`: the first line, 200 characters at most
unfoldable pub first_line : String → String
unfolding first_chunk strip
first_line text = if is_empty (strip text) then "parse error" else first_chunk 200 (strip text)

-- the statements that are not `None`
unfoldable pub present : {A : Type 0} → List (Option A) → List A
present [] = []
present (none ∷ xs) = present xs
present (some x ∷ xs) = x ∷ present xs

module _ (sg : SqlGlot) where
  open sg use {Expression, Node, parse, root, is_instance, name}

  unfoldable pub parse_statements : String → SqlDialect → Outcome (List Expression)
  unfolding first_line present
  parse_statements sql dialect = elim (parse sql dialect) [
    | failed text ↦ error (some (first_line text))
    | parsed stmts ↦ elim (present stmts) [ [] ↦ error none | s ∷ ss ↦ done (s ∷ ss) ]
  ]

  -- `_COMMAND_MAP.get(keyword, OTHER)`
  command_type : String → StatementType
  command_type keyword =
      if keyword =s= "TRUNCATE"
      then StatementType.truncate
      else if keyword =s= "GRANT"
      then StatementType.grant
      else if keyword =s= "REVOKE"
      then StatementType.revoke
      else if keyword =s= "CALL"
      then StatementType.call
      else if keyword =s= "EXECUTE"
      then StatementType.call
      else StatementType.other

  classify_node : Node → StatementType
  unfolding command_type upper
  classify_node n =
      let is = is_instance n in
      if is NodeClass.select
      then StatementType.select
      else if is NodeClass.union || is NodeClass.intersect || is NodeClass.except
      then StatementType.union
      else if is NodeClass.subquery
      then StatementType.select
      else if is NodeClass.insert
      then StatementType.insert
      else if is NodeClass.update
      then StatementType.update
      else if is NodeClass.delete
      then StatementType.delete
      else if is NodeClass.merge
      then StatementType.merge
      else if is NodeClass.drop
      then StatementType.drop
      else if is NodeClass.alter
      then StatementType.alter
      else if is NodeClass.create
      then StatementType.create
      else if is NodeClass.truncate_table
      then StatementType.truncate
      else if is NodeClass.grant
      then StatementType.grant
      else if is NodeClass.set
      then StatementType.set
      else if is NodeClass.transaction || is NodeClass.commit || is NodeClass.rollback
      then StatementType.transaction
      else if is NodeClass.pragma
      then StatementType.pragma
      else if is NodeClass.command
      then command_type (upper (name n))
      else StatementType.other

  unfoldable pub classify_statement : Expression → StatementType
  unfolding classify_node
  classify_statement e = classify_node (root e)
