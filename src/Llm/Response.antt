-- ===== src/Llm/Response.antt =====
-- The reading of an answer in src/text_to_sql/llm/openai_adapter.py. Python's conversions and `json.loads` are
-- parameters; `crashed` stands for an exception that is no engine error and that nothing here catches.

pub mod Trusted
use build_your_own_text2sql.Base.{
  ℕ, zero, suc, String, Bool, true, false, not, Option, none, some, List, [], ◌∷◌, map,
  if◌then◌else◌, or_default,
}
use build_your_own_text2sql.Base.Text.{◌=s=◌, is_empty, lower, strip}
use build_your_own_text2sql.Common.Errors.{EngineError, raise_error, nothing, provider_output}
use build_your_own_text2sql.Domain.Enums.{SqlDialect, sqlite, postgres}
use build_your_own_text2sql.Application.Generation.{TokenUsage}
use build_your_own_text2sql.Llm.Json.{
  Json, Items, Members, null, boolean, number, text, array, object, no_items, item, no_members,
  member, find_member, at_name, first_item, list_of, member_names,
}
use build_your_own_text2sql.Llm.Retries.{
  Exchange, Posted, refused, posted, Ended, ended, assertion_failed, post_with_retries,
}

-- Python's numbers, texts and parsers
pub record Python : Type 1 where
  pub Number : Type 0
  pub nought : Number
  pub one : Number
  pub half : Number
  pub less : Number → Number → Bool
  pub is_nought : Number → Bool
  -- `float(x)`, where `none` is a TypeError or a ValueError
  pub to_float : Json Number → Option Number
  -- `int(x)`, where `none` is an exception
  pub to_int : Json Number → Option ℕ
  -- `str(x)`, and `str(c)` for each character of a text
  pub to_text : Json Number → String
  pub characters : String → List String
  -- `json.loads(s)`, where `none` is a JSONDecodeError
  pub loads : String → Option (Json Number)

pub data Result (A : Type 0) : Type 0 where
  ok : A → Result A
  invalid : EngineError → Result A
  crashed : Result A

infixl 5 ◌>>=◌
unfoldable pub ◌>>=◌ : {A B : Type 0} → Result A → (A → Result B) → Result B
ok a >>= f = f a
invalid e >>= f = invalid e
crashed >>= f = crashed

unfoldable pub bad_output : {A : Type 0} → String → Result A
unfolding raise_error
bad_output message = invalid (raise_error provider_output message nothing)

-- a value, or a refused answer
unfoldable pub or_bad : {A : Type 0} → String → Option A → Result A
unfolding bad_output
or_bad message none = bad_output message
or_bad message (some a) = ok a

-- `SQLDialect(value)`
dialect_named : String → Option SqlDialect
dialect_named s =
    if s =s= "sqlite" then some sqlite else if s =s= "postgres" then some postgres else none

module _ (python : Python) where
  open python use {
    Number, nought, one, half, less, is_nought, to_float, to_int, to_text, characters, loads,
  }

  -- `_coerce_dialect`
  unfoldable pub coerce_dialect : Option (Json Number) → SqlDialect → SqlDialect
  unfolding dialect_named lower
  coerce_dialect (some (text s)) default = or_default default (dialect_named (lower s))
  coerce_dialect _ default = default

  -- `max(0.0, min(1.0, conf))`
  unfoldable pub clamp : Number → Number
  clamp conf =
      let low = if less conf one then conf else one in if less nought low then low else nought

  -- `_coerce_confidence`; a missing value is None
  unfoldable pub coerce_confidence : Option (Json Number) → Number
  unfolding clamp
  coerce_confidence value = elim (to_float (or_default null value)) [
    | none ↦ half
    | some c ↦ clamp c
  ]

  -- whether a value counts as true
  unfoldable pub truth : Json Number → Bool
  truth null = false
  truth (boolean b) = b
  truth (number n) = not (is_nought n)
  truth (text s) = not (is_empty s)
  truth (array no_items) = false
  truth (array (item x xs)) = true
  truth (object no_members) = false
  truth (object (member k v ms)) = true

  -- the texts of what a loop over a value yields
  iterated : Json Number → Result (List String)
  unfolding list_of member_names
  iterated (array xs) = ok (map to_text (list_of xs))
  iterated (text s) = ok (characters s)
  iterated (object ms) = ok (member_names ms)
  iterated null = crashed
  iterated (boolean b) = crashed
  iterated (number n) = crashed

  -- `tuple(str(t) for t in obj.get(name, []) or [])`
  texts_at : Members Number → String → Result (List String)
  unfolding find_member truth iterated
  texts_at ms name = elim (find_member ms name) [
    | none ↦ ok []
    | some v ↦ if truth v then iterated v else ok []
  ]

  -- `int(usage_obj.get(name, 0) or 0)`
  count_at : Members Number → String → Result ℕ
  unfolding find_member truth
  count_at ms name = elim (find_member ms name) [
    | none ↦ ok 0
    | some v ↦ if truth v then (elim (to_int v) [ none ↦ crashed | some n ↦ ok n ]) else ok 0
  ]

  -- `data.get("usage") or {}`
  usage_members : Json Number → Result (Members Number)
  usage_members (object ms) = ok ms
  usage_members _ = crashed

  usage_of : Option (Json Number) → Result TokenUsage
  unfolding truth count_at usage_members
  usage_of none = ok (record { prompt_tokens = 0; completion_tokens = 0 })
  usage_of (some v) = do
    ms ← if truth v then usage_members v else ok no_members
    prompt ← count_at ms "prompt_tokens"
    completion ← count_at ms "completion_tokens"
    ok (record { prompt_tokens = prompt; completion_tokens = completion })

  pub record ProviderAnswer : Type 0 where
    pub sql : String
    pub dialect : SqlDialect
    pub explanation : String
    pub referenced_tables : List String
    pub referenced_columns : List String
    pub assumptions : List String
    pub confidence : Number
    pub needs_clarification : Bool
    pub prompt_version : String
    pub provider : String
    pub model : String
    pub usage : TokenUsage

  -- `data["choices"][0]["message"]["content"]`
  unfoldable pub content_of : Json Number → Option (Json Number)
  unfolding at_name first_item
  content_of response = elim (at_name response "choices") [
    | none ↦ none
    | some choices ↦ elim (first_item choices) [
      | none ↦ none
      | some choice ↦ elim (at_name choice "message") [ none ↦ none | some m ↦ at_name m "content" ]
    ]
  ]

  -- `json.loads(content)`, which wants a text
  unfoldable pub loaded : Json Number → Result (Json Number)
  unfolding or_bad
  loaded (text s) = or_bad "Provider message content was not valid JSON." (loads s)
  loaded _ = crashed

  unfoldable pub with_text :
      Members Number → Option (Json Number) → Result (Members Number × String)
  unfolding bad_output
  with_text ms (some (text s)) = ok (ms, s)
  with_text ms _ = bad_output "Provider JSON did not include a 'sql' string."

  -- the object and its "sql" text
  unfoldable pub sql_of : Json Number → Result (Members Number × String)
  unfolding bad_output with_text find_member
  sql_of (object ms) = with_text ms (find_member ms "sql")
  sql_of _ = bad_output "Provider JSON did not include a 'sql' string."

  module _ (prompt_version provider model : String) (request_dialect : SqlDialect) where
    -- the answer that an object gives
    unfoldable pub answer_of : Json Number → Members Number × String → Result ProviderAnswer
    unfolding usage_of texts_at coerce_dialect coerce_confidence truth find_member at_name strip
    answer_of response (ms, sql) = do
      usage ← usage_of (at_name response "usage")
      tables ← texts_at ms "referenced_tables"
      columns ← texts_at ms "referenced_columns"
      assumptions ← texts_at ms "assumptions"
      ok (record {
        sql = strip sql;
        dialect = coerce_dialect (find_member ms "dialect") request_dialect;
        explanation = elim (find_member ms "explanation") [ none ↦ "" | some v ↦ to_text v ];
        referenced_tables = tables;
        referenced_columns = columns;
        assumptions = assumptions;
        confidence = coerce_confidence (find_member ms "confidence");
        needs_clarification = elim (find_member ms "needs_clarification") [
          | none ↦ false
          | some v ↦ truth v
        ];
        prompt_version = prompt_version;
        provider = provider;
        model = model;
        usage = usage;
      })

    -- `_parse_response`
    unfoldable pub parse_response : Json Number → Result ProviderAnswer
    unfolding content_of loaded sql_of answer_of or_bad
    parse_response response = do
      content ← or_bad "Provider response missing message content." (content_of response)
      obj ← loaded content
      found ← sql_of obj
      answer_of response found

    -- `generate`: the posts, then the reading
    unfoldable pub generate : (ℕ → Exchange (Json Number)) → ℕ → Result ProviderAnswer
    unfolding post_with_retries parse_response
    generate exchange max_retries = elim (post_with_retries exchange max_retries) [
      | assertion_failed ↦ crashed
      | ended p asked pauses ↦ elim p [ refused e ↦ invalid e | posted j ↦ parse_response j ]
    ]
