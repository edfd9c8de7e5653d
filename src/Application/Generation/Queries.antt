-- ===== src/Application/Generation/Queries.antt =====
-- The repair loop of src/text_to_sql/application/orchestrator.py runs no query.
use build_your_own_text2sql.Base.{
  ℕ, zero, suc, ◌+◌, ◌≡◌, refl, ap, ◌∙◌, String, Option, some, none, List, [], ◌∷◌, ◌++◌, if-split,
}
use build_your_own_text2sql.Application.Gate.{Secured}
use build_your_own_text2sql.Application.Generation.{
  RepairContext, GenerationRequest, Reply, failed, answered, Effect, inc, generate, execute,
  Generated, next_context, may_repair, decide, after_reply, loop, generate_with_repair,
}

-- the queries of a log, each with its row cap
unfoldable pub executions : List Effect → List (String × ℕ)
executions [] = []
executions (execute sql n ∷ es) = (sql, n) ∷ executions es
executions (generate n ∷ es) = executions es
executions (inc name label ∷ es) = executions es

executions-append : (xs ys : List Effect) → executions (xs ++ ys) ≡ executions xs ++ executions ys
unfolding executions
executions-append [] ys = refl
executions-append (execute sql n ∷ es) ys = ap (λ r. (sql, n) ∷ r) (executions-append es ys)
executions-append (generate n ∷ es) ys = executions-append es ys
executions-append (inc name label ∷ es) ys = executions-append es ys

-- effects after a log without queries
pub executions_after :
    (xs ys : List Effect) → executions xs ≡ [] → executions (xs ++ ys) ≡ executions ys
executions_after xs ys h = executions-append xs ys ∙ ap (λ r. r ++ executions ys) h

module _ {F : Type 0} (provider : ℕ → GenerationRequest → Reply) (secure : String → Secured F)
    (request : GenerationRequest) (max_repair : ℕ) where
  reply-executions :
      (again : ℕ → ℕ → Option RepairContext → List Effect → Generated F × List Effect)
      (attempt attempts : ℕ) (log : List Effect) (r : Reply)
      → executions log ≡ []
      → ((a b : ℕ) (ctx : Option RepairContext) (log' : List Effect)
          → executions log' ≡ []
          → executions (again a b ctx log').1 ≡ [])
      → executions (after_reply provider secure request max_repair again attempt attempts log r).1
        ≡ []
  unfolding after_reply decide executions
  reply-executions again attempt attempts log (failed e) h rest = h
  reply-executions again attempt attempts log (answered g) h rest =
      let s : Secured F = secure g.sql in
      let later =
        rest (attempt + 1) (attempts + 1)
          (some (next_context provider secure request max_repair (attempts + 1) g s))
          (log ++ inc "t2sql_repair_attempts_total" "" ∷ []) (executions_after log _ h) in
      if-split (λ (r : Generated F × List Effect). executions r.1 ≡ []) s.ok _ _ (λ _. h)
        (λ _.
          if-split (λ (r : Generated F × List Effect). executions r.1 ≡ [])
            (may_repair provider secure request max_repair attempt s) _ _ (λ _. later) (λ _. h))

  loop-executions :
      (rounds attempt attempts : ℕ) (ctx : Option RepairContext) (log : List Effect)
      → executions log ≡ []
      → executions (loop provider secure request max_repair rounds attempt attempts ctx log).1 ≡ []
  unfolding loop executions
  loop-executions zero attempt attempts ctx log h = h
  loop-executions (suc rounds) attempt attempts ctx log h =
      reply-executions (loop provider secure request max_repair rounds) attempt attempts
        (log ++ generate attempt ∷ []) _ (executions_after log _ h) (loop-executions rounds)

  -- The loop adds no query to a log that has none.
  pub generate-executions :
      (log : List Effect)
      → executions log ≡ []
      → executions (generate_with_repair provider secure request max_repair log).1 ≡ []
  unfolding generate_with_repair
  generate-executions log h = loop-executions (suc max_repair) 0 0 none log h
