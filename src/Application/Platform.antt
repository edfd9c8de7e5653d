-- ===== src/Application/Platform.antt =====
-- What `QueryOrchestrator` of src/text_to_sql/application/orchestrator.py is built from, as far as the
-- gate uses it: the components' configurations, and the libraries as parameters.
use build_your_own_text2sql.Base.{String, List}
use build_your_own_text2sql.Sqlglot.{SqlGlot}
use build_your_own_text2sql.Sql.Validator.Config.{SqlValidator}
use build_your_own_text2sql.Security.Policy.{SecurityPolicyConfig}
use build_your_own_text2sql.Security.Cost.{Floats, PlanEstimate}

pub record Platform : Type 1 where
  pub sqlglot : SqlGlot
  pub floats : Floats
  -- the order in which Python walks a set of texts
  pub iteration : List String → List String
  pub validator : SqlValidator
  pub security : SecurityPolicyConfig
  pub medium_threshold : floats.Float
  pub high_threshold : floats.Float
  -- what EXPLAIN answers for a text on the read-only engine
  pub explain : String → PlanEstimate floats.Float
