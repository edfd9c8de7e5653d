-- ===== src/Sql/Validator/Config.antt =====
-- The constants and the constructor of src/text_to_sql/sql/validator.py.
use build_your_own_text2sql.Base.{String, Bool, false, List, [], ◌∷◌, map}
use build_your_own_text2sql.Base.Text.{lower}
use build_your_own_text2sql.Sqlglot.{NodeClass}

abbrev pub default_function_denylist : List String
default_function_denylist =
    "pg_sleep" ∷ "sleep" ∷ "benchmark" ∷ "pg_read_file" ∷ "pg_read_binary_file" ∷ "pg_ls_dir"
    ∷ "pg_stat_file" ∷ "lo_import" ∷ "lo_export" ∷ "load_extension" ∷ "readfile" ∷ "writefile"
    ∷ "load_file" ∷ "dblink" ∷ "dblink_exec" ∷ "copy" ∷ "xp_cmdshell" ∷ "system" ∷ "current_setting"
    ∷ "set_config" ∷ "pg_terminate_backend" ∷ "pg_cancel_backend" ∷ "query_to_xml"
    ∷ "pg_client_encoding" ∷ []

abbrev pub system_schemas : List String
system_schemas = "information_schema" ∷ "pg_catalog" ∷ "pg_temp" ∷ "sys" ∷ []

abbrev pub system_table_prefixes : List String
system_table_prefixes = "pg_" ∷ "sqlite_" ∷ []

abbrev pub forbidden_node_types : List NodeClass
forbidden_node_types =
    NodeClass.insert ∷ NodeClass.update ∷ NodeClass.delete ∷ NodeClass.merge ∷ NodeClass.drop
    ∷ NodeClass.alter ∷ NodeClass.create ∷ NodeClass.set ∷ NodeClass.transaction ∷ NodeClass.commit
    ∷ NodeClass.rollback ∷ NodeClass.command ∷ NodeClass.truncate_table ∷ NodeClass.grant
    ∷ NodeClass.revoke ∷ []

pub record SqlValidator : Type 0 where
  pub denylist : List String
  pub allow_cross_db : Bool
  pub allowed_schemas : List String

-- `SQLValidator.__init__`
unfoldable pub make_validator : List String → Bool → List String → SqlValidator
unfolding lower
make_validator function_denylist allow_cross_database allowed_schemas = record {
  denylist = map lower function_denylist;
  allow_cross_db = allow_cross_database;
  allowed_schemas = map lower allowed_schemas;
}

unfoldable pub default_validator : SqlValidator
unfolding make_validator
default_validator = make_validator default_function_denylist false []
