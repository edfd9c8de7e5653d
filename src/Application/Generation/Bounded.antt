-- ===== src/Application/Generation/Bounded.antt =====
-- The repair loop ends with a result of the gate: `_generate_with_repair` of
-- src/text_to_sql/application/orchestrator.py.
use build_your_own_text2sql.Base.{
  ℕ, zero, suc, ◌+◌, ◌≤◌, ◌<◌, ◌≡◌, refl, String, true, false, Option, none, some, List, [], ◌∷◌,
  ◌++◌, ltb, ltb→lt, arith, ◌⊎◌, inl, inr, and-eq-true, if-split,
}
use build_your_own_text2sql.Common.Errors.{EngineError}
use build_your_own_text2sql.Application.Repair.{is_repairable}
use build_your_own_text2sql.Application.Gate.{Secured}
use build_your_own_text2sql.Application.Generation.{
  RepairContext, GenerationRequest, GenerationResponse, Reply, failed, answered, Effect, inc,
  generate, execute, Generated, raised, finished, no_generation, attempt_request, next_context,
  may_repair, decide, after_reply, loop, generate_with_repair,
}

-- the calls of the provider in a log
pub provider_calls : List Effect → ℕ
provider_calls [] = 0
provider_calls (generate n ∷ es) = suc (provider_calls es)
provider_calls (inc name label ∷ es) = provider_calls es
provider_calls (execute sql n ∷ es) = provider_calls es

provider_calls-append :
    (xs ys : List Effect) → provider_calls (xs ++ ys) ≡ provider_calls xs + provider_calls ys
unfolding provider_calls
provider_calls-append [] ys = omega arith
provider_calls-append (generate n ∷ es) ys = omega (arith, provider_calls-append es ys)
provider_calls-append (inc name label ∷ es) ys = provider_calls-append es ys
provider_calls-append (execute sql n ∷ es) ys = provider_calls-append es ys

module _ {F : Type 0} (provider : ℕ → GenerationRequest → Reply) (secure : String → Secured F)
    (request : GenerationRequest) (max_repair : ℕ) where
  -- A result of the loop: an answer of the provider to the last attempt, gated as it stands, after
  -- at most `max_repair` repairs; and no further repair was due.
  pub record IsResult (g : GenerationResponse) (s : Secured F) (attempts : ℕ) : Type 0 where
    pub bounded : attempts ≤ max_repair
    pub gated : s ≡ secure g.sql
    pub context : Option RepairContext
    pub answer :
        provider attempts (attempt_request provider secure request max_repair context) ≡ answered g
    pub stopped : (s.ok ≡ true) ⊎ (may_repair provider secure request max_repair attempts s ≡ false)

  may_repair-bounded :
      (attempt : ℕ) (s : Secured F)
      → may_repair provider secure request max_repair attempt s ≡ true
      → attempt < max_repair
  unfolding may_repair
  may_repair-bounded attempt s more =
      let both : (ltb attempt max_repair ≡ true) × (is_repairable s.issues ≡ true) =
        and-eq-true _ _ more in
      ltb→lt _ _ both.0

  -- An error of the provider: it answered one of the allowed attempts with it.
  pub record IsProviderError (e : EngineError) : Type 0 where
    pub attempt : ℕ
    pub bounded : attempt ≤ max_repair
    pub context : Option RepairContext
    pub reply :
        provider attempt (attempt_request provider secure request max_repair context) ≡ failed e

  -- How the loop may end: with an error of the provider, or with such a result; never without a
  -- generation.
  abbrev pub IsEnd : Generated F → Type 0
  IsEnd (raised e) = IsProviderError e
  IsEnd (finished g s n) = IsResult g s n
  IsEnd no_generation = ⊥

  decide-IsEnd :
      (rounds attempt : ℕ) (ctx : Option RepairContext) (log : List Effect) (g : GenerationResponse)
      → suc rounds + attempt ≡ suc max_repair
      → provider attempt (attempt_request provider secure request max_repair ctx) ≡ answered g
      → ((ctx' : Option RepairContext) (log' : List Effect)
          → attempt < max_repair
          → IsEnd
              (loop provider secure request max_repair rounds
                (attempt + 1)
                (attempt + 1)
                ctx'
                log').0)
      → IsEnd
          (decide provider secure request max_repair
            (loop provider secure request max_repair rounds)
            attempt
            attempt
            log
            g
            (secure g.sql)).0
  unfolding decide
  decide-IsEnd rounds attempt ctx log g e answers again =
      let s = secure g.sql in
      let end : (s.ok ≡ true) ⊎ (may_repair provider secure request max_repair attempt s ≡ false)
          → IsResult g s attempt =
        λ over. record {
          bounded = omega arith;
          gated = refl;
          context = ctx;
          answer = answers;
          stopped = over;
        } in
      if-split (λ (r : Generated F × List Effect). IsEnd r.0) s.ok _ _ (λ ok. end (inl ok))
        (λ bad.
          if-split (λ (r : Generated F × List Effect). IsEnd r.0)
            (may_repair provider secure request max_repair attempt s) _ _
            (λ more. again _ _ (may_repair-bounded attempt s more)) (λ over. end (inr over)))

  reply-IsEnd :
      (rounds attempt : ℕ) (ctx : Option RepairContext) (log : List Effect) (r : Reply)
      → suc rounds + attempt ≡ suc max_repair
      → provider attempt (attempt_request provider secure request max_repair ctx) ≡ r
      → ((ctx' : Option RepairContext) (log' : List Effect)
          → attempt < max_repair
          → IsEnd
              (loop provider secure request max_repair rounds
                (attempt + 1)
                (attempt + 1)
                ctx'
                log').0)
      → IsEnd
          (after_reply provider secure request max_repair
            (loop provider secure request max_repair rounds)
            attempt
            attempt
            log
            r).0
  unfolding after_reply
  reply-IsEnd rounds attempt ctx log (failed e) bound replies again = record {
    attempt = attempt;
    bounded = omega arith;
    context = ctx;
    reply = replies;
  }
  reply-IsEnd rounds attempt ctx log (answered g) bound answers again =
      decide-IsEnd rounds attempt ctx log g bound answers again

  loop-IsEnd :
      (rounds attempt : ℕ) (ctx : Option RepairContext) (log : List Effect)
      → rounds + attempt ≡ suc max_repair
      → 0 < rounds
      → IsEnd (loop provider secure request max_repair rounds attempt attempt ctx log).0
  unfolding loop
  loop-IsEnd zero attempt ctx log e h = elim h [ ]
  loop-IsEnd (suc rounds) attempt ctx log e h =
      reply-IsEnd rounds attempt ctx (log ++ generate attempt ∷ [])
        (provider attempt (attempt_request provider secure request max_repair ctx)) e refl
        (λ ctx' log' m. loop-IsEnd rounds (attempt + 1) ctx' log' (omega arith) (omega arith))

  -- the calls of one round, when the rounds after it make at most `n`
  reply-calls :
      (again : ℕ → ℕ → Option RepairContext → List Effect → Generated F × List Effect)
      (n attempt attempts : ℕ) (log : List Effect) (r : Reply)
      → ((a b : ℕ) (ctx : Option RepairContext) (log' : List Effect)
          → provider_calls (again a b ctx log').1 ≤ provider_calls log' + n)
      → provider_calls
          (after_reply provider secure request max_repair again attempt attempts log r).1
        ≤ provider_calls log + n
  unfolding after_reply decide provider_calls
  reply-calls again n attempt attempts log (failed e) rest = omega arith
  reply-calls again n attempt attempts log (answered g) rest =
      let s : Secured F = secure g.sql in
      let counted = provider_calls-append log (inc "t2sql_repair_attempts_total" "" ∷ []) in
      let later =
        rest (attempt + 1) (attempts + 1)
          (some (next_context provider secure request max_repair (attempts + 1) g s))
          (log ++ inc "t2sql_repair_attempts_total" "" ∷ []) in
      if-split (λ (r : Generated F × List Effect). provider_calls r.1 ≤ provider_calls log + n) s.ok
        _ _ (λ _. omega arith)
        (λ _.
          if-split (λ (r : Generated F × List Effect). provider_calls r.1 ≤ provider_calls log + n)
            (may_repair provider secure request max_repair attempt s) _ _
            (λ _. omega (arith, counted, later)) (λ _. omega arith))

  loop-calls :
      (rounds attempt attempts : ℕ) (ctx : Option RepairContext) (log : List Effect)
      → provider_calls (loop provider secure request max_repair rounds attempt attempts ctx log).1
        ≤ provider_calls log + rounds
  unfolding loop provider_calls
  loop-calls zero attempt attempts ctx log = omega arith
  loop-calls (suc rounds) attempt attempts ctx log =
      let called = provider_calls-append log (generate attempt ∷ []) in
      let round =
        reply-calls (loop provider secure request max_repair rounds) rounds attempt attempts
          (log ++ generate attempt ∷ [])
          (provider attempt (attempt_request provider secure request max_repair ctx))
          (loop-calls rounds) in
      omega (arith, called, round)

  -- The loop ends with an error that the provider raised in an attempt after at most `max_repair`
  -- repairs, or with an answer and what the gate makes of it after at most `max_repair` repairs, when
  -- it passed or no repair was due; and it calls the provider at most once more than there may be
  -- repairs.
  pub generate_with_repair-IsEnd :
      (log : List Effect)
      → IsEnd (generate_with_repair provider secure request max_repair log).0
        × (provider_calls (generate_with_repair provider secure request max_repair log).1
            ≤ provider_calls log + suc max_repair)
  unfolding generate_with_repair
  generate_with_repair-IsEnd log = (
    loop-IsEnd (suc max_repair) 0 none log (omega arith) (omega arith),
    loop-calls (suc max_repair) 0 0 none log,
  )
