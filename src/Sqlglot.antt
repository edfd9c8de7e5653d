-- ===== src/Sqlglot.antt =====
-- What the program uses of the library SQLGlot, as an interface: a parsed statement, its nodes, and
-- the calls that src/text_to_sql/sql, security/rewriter.py and security/cost.py make.
use build_your_own_text2sql.Base.{ℕ, String, Bool, Option, List}
use build_your_own_text2sql.Domain.Enums.{SqlDialect}

-- The classes of `sqlglot.exp` that the program names. A class that the installed version lacks
-- (`getattr(exp, …, None)`) has no instances.
pub data NodeClass : Type 0 where
  select union intersect except subquery insert update delete merge drop alter create : NodeClass
  truncate_table grant revoke set transaction commit rollback pragma command : NodeClass
  star func anonymous table column cte alias join literal limit : NodeClass

-- `sqlglot.parse`: a `ParseError` or `TokenError` with its text, or the statements; an empty
-- statement is `None`.
pub data ParseResult (E : Type 0) : Type 0 where
  failed : String → ParseResult E
  parsed : List (Option E) → ParseResult E

-- The literal on the right of a tenant predicate: `Literal.number` or `Literal.string`.
pub data Literal : Type 0 where
  number text : String → Literal

-- `exp.EQ(this=exp.column(column, table=qualifier), expression=literal)`
pub record Predicate : Type 0 where
  pub qualifier : String
  pub column : String
  pub value : Literal

-- A node is an object of a tree. Texts that a node lacks are empty, as SQLGlot's properties give them.
pub record SqlGlot : Type 1 where
  pub Expression : Type 0
  pub Node : Type 0
  pub parse : String → SqlDialect → ParseResult Expression
  pub root : Expression → Node
  pub is_instance : Node → NodeClass → Bool
  pub walk : Expression → List Node
  pub find_all : Expression → NodeClass → List Node
  pub find_ancestor : Expression → Node → NodeClass → Option Node
  -- the chain of `.parent` links, the nearest first
  pub parents : Expression → Node → List Node
  pub name : Node → String
  pub alias : Node → String
  pub db : Node → String
  pub catalog : Node → String
  -- `column.table`
  pub table_of : Node → String
  -- `str(func.this)`; `func.sql_name()`, which may raise; `type(node).__name__`
  pub this_text : Node → String
  pub sql_name : Node → Option String
  pub type_name : Node → String
  pub has_comments : Node → Bool
  -- `join.kind`, `join.side`, and whether `join.args` holds an "on" or a "using"
  pub kind : Node → String
  pub side : Node → String
  pub has_on : Node → Bool
  pub has_using : Node → Bool
  -- `len(select.expressions)`
  pub count_expressions : Node → ℕ
  -- `expr.args.get("limit")`, `limit.expression`, `literal.is_int`, `int(literal.name)`
  pub limit_arg : Expression → Option Node
  pub inner_expression : Node → Option Node
  pub is_int : Node → Bool
  pub int_value : Node → ℕ
  pub copy : Expression → Expression
  -- `expr.limit(n)`, which copies
  pub with_limit : Expression → ℕ → Expression
  -- `scope.where(predicate, append=True, copy=False)` on a node of the tree
  pub append_where : Expression → Node → Predicate → Expression
  -- `expression.sql(dialect=…, pretty=…)`
  pub render : Expression → SqlDialect → Bool → String
