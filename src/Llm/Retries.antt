-- ===== src/Llm/Retries.antt =====
-- The calls of src/text_to_sql/llm/openai_adapter.py: `_post` and `_post_with_retries`. What the HTTP client does is a
-- parameter, which may differ from one attempt to the next.

pub mod Attempts
use build_your_own_text2sql.Base.{
  ℕ, zero, suc, ◌+◌, String, Bool, true, false, ◌||◌, Option, none, some, List, [], ◌∷◌, ◌++◌, ltb,
  leb, ◌==◌, if◌then◌else◌,
}
use build_your_own_text2sql.Base.Text.{◌+s◌, decimal}
use build_your_own_text2sql.Common.Errors.{
  EngineError, ErrorClass, make_error, raise_error, nothing, provider_failure, provider_timeout,
  provider_output,
}

-- What a request to the endpoint does; a body that is no JSON is `none`.
pub data Exchange (J : Type 0) : Type 0 where
  timed_out transport_failed : Exchange J
  responded : ℕ → Option J → Exchange J

pub data Posted (J : Type 0) : Type 0 where
  refused : EngineError → Posted J
  posted : J → Posted J

status_error : String → Bool → EngineError
unfolding make_error
status_error message retryable = make_error provider_failure message nothing none (some retryable)

body_or_error : {J : Type 0} → Option J → Posted J
unfolding raise_error
body_or_error none =
    refused (raise_error provider_output "The provider returned non-JSON output." nothing)
body_or_error (some j) = posted j

-- `_post`
unfoldable pub post : {J : Type 0} → Exchange J → Posted J
unfolding status_error body_or_error raise_error decimal
post timed_out = refused (raise_error provider_timeout "The LLM provider timed out." nothing)
post transport_failed =
    refused (raise_error provider_failure "The LLM provider request failed." nothing)
post (responded status body) =
    if status == 429
    then refused (status_error "The LLM provider rate-limited the request." true)
    else if leb 500 status
    then refused (status_error ("The LLM provider returned status " +s decimal status +s ".") true)
    else if leb 400 status
    then refused (
        status_error ("The LLM provider rejected the request (status " +s decimal status +s ").")
          false)
    else body_or_error body

-- `except ProviderTimeoutError`
unfoldable pub is_timeout : ErrorClass → Bool
is_timeout provider_timeout = true
is_timeout _ = false

-- whether an error leads to another attempt
unfoldable pub is_retried : EngineError → Bool
unfolding is_timeout
is_retried e = is_timeout e.class || e.retryable

-- The end of the loop, with the attempts that were made and the pauses between them, in units of 0.05 seconds. The
-- assertion `last_exc is not None` may fail.
pub data Ended (J : Type 0) : Type 0 where
  ended : Posted J → ℕ → List ℕ → Ended J
  assertion_failed : Ended J

module _ {J : Type 0} (exchange : ℕ → Exchange J) (max_retries : ℕ) where
  -- `if attempt < self._max_retries: await asyncio.sleep(0.05 * (attempt + 1))`
  pauses_after : ℕ → List ℕ → List ℕ
  pauses_after attempt pauses =
      if ltb attempt max_retries then pauses ++ suc attempt ∷ [] else pauses

  -- what the loop makes of one post
  unfoldable pub after_post : (EngineError → List ℕ → Ended J) → ℕ → List ℕ → Posted J → Ended J
  unfolding is_retried pauses_after
  after_post again attempt pauses (posted j) = ended (posted j) (suc attempt) pauses
  after_post again attempt pauses (refused e) =
      let next = again e (pauses_after attempt pauses) in
      if is_retried e then next else ended (refused e) (suc attempt) pauses

  -- the rounds that are left, from `attempt` on; the last error is raised after them
  unfoldable pub retry_loop : ℕ → ℕ → Option EngineError → List ℕ → Ended J
  unfolding after_post post
  retry_loop zero attempt none pauses = assertion_failed
  retry_loop zero attempt (some e) pauses = ended (refused e) attempt pauses
  retry_loop (suc rounds) attempt last pauses =
      after_post (λ e ps. retry_loop rounds (suc attempt) (some e) ps) attempt pauses
        (post (exchange attempt))

  -- `_post_with_retries`
  unfoldable pub post_with_retries : Ended J
  unfolding retry_loop
  post_with_retries = retry_loop (suc max_retries) 0 none []
