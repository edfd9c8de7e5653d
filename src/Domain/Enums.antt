-- ===== src/Domain/Enums.antt =====
-- Enumerations: src/text_to_sql/domain/enums.py. `_value` gives the text of a member.
use build_your_own_text2sql.Base.{String, Bool, true, false}

pub data SqlDialect : Type 0 where
  sqlite postgres : SqlDialect

pub sqlglot_name : SqlDialect → String
sqlglot_name sqlite = "sqlite"
sqlglot_name postgres = "postgres"

abbrev pub is_postgres : SqlDialect → Bool
is_postgres postgres = true
is_postgres sqlite = false

pub data DataClassification : Type 0 where
  public internal confidential pii financial auth_secret highly_restricted : DataClassification

unfoldable pub classification_value : DataClassification → String
classification_value public = "public"
classification_value internal = "internal"
classification_value confidential = "confidential"
classification_value pii = "pii"
classification_value financial = "financial"
classification_value auth_secret = "auth_secret"
classification_value highly_restricted = "highly_restricted"

unfoldable pub is_sensitive : DataClassification → Bool
is_sensitive pii = true
is_sensitive financial = true
is_sensitive auth_secret = true
is_sensitive highly_restricted = true
is_sensitive _ = false

pub data RiskLevel : Type 0 where
  low medium high : RiskLevel

pub data AmbiguityCategory : Type 0 where
  metric_definition time_range entity_reference measure_unspecified unknown_term : AmbiguityCategory

unfoldable pub ambiguity_value : AmbiguityCategory → String
ambiguity_value metric_definition = "metric_definition"
ambiguity_value time_range = "time_range"
ambiguity_value entity_reference = "entity_reference"
ambiguity_value measure_unspecified = "measure_unspecified"
ambiguity_value unknown_term = "unknown_term"

pub data ResponseStatus : Type 0 where
  success clarification_required preview rejected error : ResponseStatus

pub data StatementType : Type 0 where
  select with_cte union insert update delete merge drop alter truncate create grant revoke :
      StatementType
  transaction pragma set call other : StatementType

unfoldable pub statement_value : StatementType → String
statement_value select = "select"
statement_value with_cte = "with"
statement_value union = "union"
statement_value insert = "insert"
statement_value update = "update"
statement_value delete = "delete"
statement_value merge = "merge"
statement_value drop = "drop"
statement_value alter = "alter"
statement_value truncate = "truncate"
statement_value create = "create"
statement_value grant = "grant"
statement_value revoke = "revoke"
statement_value transaction = "transaction"
statement_value pragma = "pragma"
statement_value set = "set"
statement_value call = "call"
statement_value other = "other"

unfoldable pub is_read_only : StatementType → Bool
is_read_only select = true
is_read_only with_cte = true
is_read_only union = true
is_read_only _ = false
