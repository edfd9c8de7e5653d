-- ===== src/Application/Process/Guarded.antt =====
-- What `process` of src/text_to_sql/application/orchestrator.py sends to the database.
use build_your_own_text2sql.Base.{
  ℕ, zero, suc, ◌≤◌, ◌≡◌, refl, sym, ap, ◌∙◌, ◌⊎◌, inl, inr, String, Bool, true, Option, none, some,
  List, [], ◌∷◌, arith, if-split,
}
use build_your_own_text2sql.Common.Errors.{EngineError}
use build_your_own_text2sql.Domain.Enums.{ambiguity_value}
use build_your_own_text2sql.Domain.Models.{QueryRequest, AuthContext, Clarification}
use build_your_own_text2sql.Execution.{Executed, failed_with, result_of}
use build_your_own_text2sql.Application.Gate.{Secured}
use build_your_own_text2sql.Application.Generation.{
  GenerationResponse, Effect, inc, Generated, raised, finished, no_generation,
}
use build_your_own_text2sql.Application.Generation.Queries.{
  executions, executions_after, generate-executions,
}
use build_your_own_text2sql.Application.Generation.Bounded.{IsEnd, generate_with_repair-IsEnd}
use build_your_own_text2sql.Application.Process.{
  Collaborators, Processed, cap, do_execute, secured, first_request, after_execution, assert_step,
  passed_step, finish, detected_step, authorized_step, received, clarified, generated_step, process,
}
use build_your_own_text2sql.Application.Report.{authorize_tenant, row_cap}

row_cap-le : (asked : Option ℕ) (configured : ℕ) → row_cap asked configured ≤ configured
unfolding row_cap
row_cap-le none configured = omega arith
row_cap-le (some zero) configured = omega arith
row_cap-le (some (suc n)) configured = omega arith

module _ {F V : Type 0} (k : Collaborators F V) (request : QueryRequest) (auth : AuthContext)
    (execute_flag : Bool) (bound : Option String) where
  -- A log with one query: the text that the gate passed for a candidate, under the row cap, of a
  -- request that is to be executed for the authenticated tenant.
  pub record IsGuarded (log : List Effect) : Type 0 where
    pub candidate : String
    pub sql : String
    pub authorized : authorize_tenant request auth ≡ none
    pub wanted : do_execute k request auth execute_flag bound ≡ true
    pub passed : (secured k request auth execute_flag bound candidate).ok ≡ true
    pub rendered : (secured k request auth execute_flag bound candidate).final_sql ≡ some sql
    pub only : executions log ≡ (sql, cap k request auth execute_flag bound) ∷ []
    pub capped : cap k request auth execute_flag bound ≤ k.max_rows

  -- no query at all, or a guarded one
  abbrev pub IsSafe : List Effect → Type 0
  IsSafe log = (executions log ≡ []) ⊎ IsGuarded log

  after_execution-executions :
      (sql : String) (g : GenerationResponse) (s : Secured F) (attempts : ℕ) (log : List Effect)
      (e : Executed V)
      → executions log ≡ []
      → executions (after_execution k request auth execute_flag bound sql g s attempts log e).1
        ≡ (sql, cap k request auth execute_flag bound) ∷ []
  unfolding after_execution executions
  after_execution-executions sql g s attempts log (failed_with e) h = executions_after log _ h
  after_execution-executions sql g s attempts log (result_of r) h = executions_after log _ h

  assert_step-IsSafe :
      (o : Option String) (g : GenerationResponse) (s : Secured F) (attempts : ℕ)
      (log : List Effect)
      → authorize_tenant request auth ≡ none
      → s ≡ secured k request auth execute_flag bound g.sql
      → s.ok ≡ true
      → s.final_sql ≡ o
      → executions log ≡ []
      → IsSafe (assert_step k request auth execute_flag bound o g s attempts log).1
  unfolding assert_step passed_step executions
  assert_step-IsSafe none g s attempts log same gated ok final h = inl h
  assert_step-IsSafe (some text) g s attempts log same gated ok final h =
      if-split (λ (r : Processed F V × List Effect). IsSafe r.1)
        (do_execute k request auth execute_flag bound) _ _
        (λ wanted. inr (record {
          candidate = g.sql;
          sql = text;
          authorized = same;
          wanted = wanted;
          passed = ap (λ x. x.ok) (sym gated) ∙ ok;
          rendered = ap (λ x. x.final_sql) (sym gated) ∙ final;
          only = after_execution-executions text g s attempts log _ h;
          capped = unfold cap in row_cap-le request.max_rows k.max_rows;
        }))
        (λ _. inl (executions_after log _ h))

  finish-IsSafe :
      (out : Generated F) (log : List Effect)
      → authorize_tenant request auth ≡ none
      → IsEnd k.provider
          (secured k request auth execute_flag bound)
          (first_request k request auth execute_flag bound)
          k.max_repair
          out
      → executions log ≡ []
      → IsSafe (finish k request auth execute_flag bound out log).1
  unfolding finish executions
  finish-IsSafe (raised e) log same end h = inl h
  finish-IsSafe no_generation log same end h = inl h
  finish-IsSafe (finished g s attempts) log same end h =
      if-split (λ (r : Processed F V × List Effect). IsSafe r.1) s.ok _ _
        (λ ok. assert_step-IsSafe s.final_sql g s attempts log same end.gated ok refl h)
        (λ _. inl (executions_after log _ h))

  received-executions : executions (received k request auth execute_flag bound) ≡ []
  unfolding received executions
  received-executions =
      if-split (λ es. executions es ≡ []) (k.marked request.question) _ _ (λ _. refl) (λ _. refl)

  detected_step-IsSafe :
      (d : Option Clarification)
      → authorize_tenant request auth ≡ none
      → IsSafe (detected_step k request auth execute_flag bound d).1
  unfolding detected_step clarified generated_step executions
  detected_step-IsSafe (some c) same = inl (
      executions_after (received k request auth execute_flag bound)
        (inc "t2sql_clarifications_total" (ambiguity_value c.category) ∷ []) received-executions)
  detected_step-IsSafe none same =
      let gate = secured k request auth execute_flag bound in
      let first = first_request k request auth execute_flag bound in
      let start = received k request auth execute_flag bound in
      finish-IsSafe _ _ same (generate_with_repair-IsEnd k.provider gate first k.max_repair start).0
        (generate-executions k.provider gate first k.max_repair start received-executions)

  authorized_step-IsSafe :
      (o : Option EngineError)
      → authorize_tenant request auth ≡ o
      → IsSafe (authorized_step k request auth execute_flag bound o).1
  unfolding authorized_step executions
  authorized_step-IsSafe (some e) denied = inl refl
  authorized_step-IsSafe none same = detected_step-IsSafe (k.detect request.question) same

  -- A request runs no query, or one: the text that the gate passed for some candidate, with a row cap
  -- of at most the configured one, when the request is for the authenticated tenant, is to be executed
  -- and is neither a dry run nor for the SQL only.
  pub process-IsSafe : IsSafe (process k request auth execute_flag bound).1
  unfolding process
  process-IsSafe = authorized_step-IsSafe (authorize_tenant request auth) refl
