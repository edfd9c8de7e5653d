-- ===== src/Examples/Endpoint.antt =====
-- The theorems on prompts, on the provider's endpoint and on the HTTP interface.
use Prim.Native.String.{String}
use build_your_own_text2sql.Base.{
  ℕ, true, false, ltb, ◌==◌, [], ◌∷◌, ◌≡◌, refl, inr, some, none, Option,
}
use build_your_own_text2sql.Base.Text.{strip, ◌+s◌}
use build_your_own_text2sql.Domain.Enums.{SqlDialect}
use build_your_own_text2sql.Semantic.{SemanticLayer}
use build_your_own_text2sql.Schema.Cache.{SchemaCache}
use build_your_own_text2sql.Llm.Json.{
  Json, Members, null, number, text, array, object, no_items, item, no_members, member, find_member,
}
use build_your_own_text2sql.Llm.Retries.{
  Exchange, timed_out, responded, post_with_retries, ended, posted, post,
}
use build_your_own_text2sql.Llm.Retries.Attempts.{IsLast, post_with_retries-IsLast}
use build_your_own_text2sql.Llm.Response.{
  Python, ProviderAnswer, ok, crashed, ◌>>=◌, content_of, parse_response,
}
use build_your_own_text2sql.Llm.Response.Trusted.{InUnit, parse_response-ok}
use build_your_own_text2sql.Base.Words.{all_chars}
use build_your_own_text2sql.Domain.Serialized.Budget.{in_line}
use build_your_own_text2sql.Llm.Prompt.{sanitize_untrusted, PromptContext, build}
use build_your_own_text2sql.Llm.Prompt.Line.{build-question}
use build_your_own_text2sql.Api.{Headers, post_schema_refresh, get_auth_context, granted}
use build_your_own_text2sql.Api.Authorized.{IsGuarded, post_schema_refresh-IsGuarded}
use build_your_own_text2sql.Examples.Sample.{shop}

-- two timeouts, then an answer
abbrev after_two : ℕ → Exchange ℕ
after_two n = elim (ltb n 2) [ true ↦ timed_out | false ↦ responded 200 (some 7) ]

post_runs : post_with_retries after_two 2 ≡ ended (posted 7) 3 (1 ∷ 2 ∷ [])
unfolding post_with_retries post
post_runs = refl

post_with_retries-IsLast_example : IsLast after_two 2 (post_with_retries after_two 2)
post_with_retries-IsLast_example = post_with_retries-IsLast after_two 2

abbrev hundredths : Json ℕ → Option ℕ
hundredths (number n) = some n
hundredths _ = none

abbrev counting : Python
counting = record {
  Number = ℕ;
  nought = 0;
  one = 100;
  half = 50;
  less = ltb;
  is_nought = λ n. n == 0;
  to_float = hundredths;
  to_int = λ j. some 1;
  to_text = λ j. "";
  characters = λ s. [];
  loads = λ s.
      some
        (object (member "sql" (text " SELECT 1 ") (member "confidence" (number 700) no_members)));
}

-- a choice with this content
abbrev choice_of : Json ℕ → Json ℕ
choice_of content = object (
    member "choices"
      (array (
        item (object (member "message" (object (member "content" content no_members)) no_members))
          no_items))
      no_members)

abbrev answer : ProviderAnswer counting
answer = record {
  sql = "SELECT 1";
  dialect = SqlDialect.sqlite;
  explanation = "";
  referenced_tables = [];
  referenced_columns = [];
  assumptions = [];
  confidence = 100;
  needs_clarification = false;
  prompt_version = "v1";
  provider = "openai";
  model = "m";
  usage = record { prompt_tokens = 0; completion_tokens = 0 };
}

parse_runs :
    parse_response counting "v1" "openai" "m" SqlDialect.sqlite (choice_of (text "{…}")) ≡ ok answer
unfolding parse_response ◌>>=◌
parse_runs = refl

-- a content that is null, as in an answer without text, is an exception that nothing catches
null_content_crashes :
    parse_response counting "v1" "openai" "m" SqlDialect.sqlite (choice_of null) ≡ crashed
unfolding parse_response ◌>>=◌
null_content_crashes = refl

parse_response-ok_example :
    (content sql : String) × (ms : Members ℕ) × (content_of counting (choice_of (text "{…}"))
      ≡ some (text content))
    × (counting.loads content ≡ some (object ms))
    × (find_member ms "sql" ≡ some (text sql))
    × (answer.sql ≡ strip sql)
    × InUnit counting answer.confidence
parse_response-ok_example =
    parse_response-ok counting "v1" "openai" "m" SqlDialect.sqlite (choice_of (text "{…}")) answer
      (inr (inr (refl, refl))) parse_runs

abbrev no_layer : SemanticLayer
no_layer = record {
  terms = [];
  metrics = [];
  column_annotations = [];
  table_annotations = [];
  default_date_fields = [];
}

abbrev cold_cache : SchemaCache
cold_cache = record { ttl = 300; entry = none }

abbrev admin_headers : Headers
admin_headers = record {
  user_id = some "ada";
  tenant_id = some "acme";
  roles = some "analyst, Admin,";
}

headers_run :
    get_auth_context admin_headers
    ≡ granted (record { user_id = "ada"; tenant_id = "acme"; roles = "analyst" ∷ "Admin" ∷ [] })
unfolding get_auth_context
headers_run = refl

post_schema_refresh-IsGuarded_example :
    IsGuarded no_layer cold_cache "c1" admin_headers 5 shop
      (post_schema_refresh no_layer cold_cache "c1" admin_headers 5 shop)
post_schema_refresh-IsGuarded_example =
    post_schema_refresh-IsGuarded no_layer cold_cache "c1" admin_headers 5 shop

abbrev revenue_prompt : PromptContext
revenue_prompt = record {
  question = "";
  dialect = SqlDialect.sqlite;
  schema_text = "orders(id, total)";
  semantic_text = "";
  max_rows = 50;
  resolved_date_text = none;
  conversation_summary = some "We spoke\nof revenue.";
  repair_text = none;
}

build-question_example :
    (before : String) × (after : String) × ((question : String)
      → ((build (record revenue_prompt { question = question })).1
          ≡ before +s "\n" +s sanitize_untrusted question true +s "\n" +s after)
        × (all_chars in_line (sanitize_untrusted question true) ≡ true)
        × ((build (record revenue_prompt { question = question })).0 ≡ (build revenue_prompt).0))
build-question_example = build-question revenue_prompt
