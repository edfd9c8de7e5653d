-- ===== src/Llm/Retries/Attempts.antt =====
-- How often src/text_to_sql/llm/openai_adapter.py asks, and which answer it returns.
use build_your_own_text2sql.Base.{
  ℕ, zero, suc, ◌+◌, ◌≤◌, Bool, true, false, ◌&&◌, ◌≡◌, refl, sym, ap, ◌∙◌, ◌⊎◌, inl, inr, arith,
  Option, none, some, List, [], ◌∷◌, ltb, if-split, and-intro,
}
use build_your_own_text2sql.Base.Lists.{length, length-append}
use build_your_own_text2sql.Common.Errors.{EngineError}
use build_your_own_text2sql.Llm.Retries.{
  Exchange, Posted, refused, posted, post, is_retried, Ended, ended, pauses_after, after_post,
  retry_loop, post_with_retries,
}

module _ {J : Type 0} where
  -- an error that leads to another attempt
  abbrev pub retried : Posted J → Bool
  retried (refused e) = is_retried e
  retried (posted j) = false

module _ {J : Type 0} (exchange : ℕ → Exchange J) (max_retries : ℕ) where
  -- the attempts before the `k`-th were all retried
  abbrev pub all_retried : ℕ → Bool
  all_retried zero = true
  all_retried (suc k) = retried (post (exchange k)) && all_retried k

  -- The outcome is that of the `k`-th attempt, the last one.
  abbrev pub IsLast : Ended J → Type 0
  IsLast r =
      (k : ℕ) × (pauses : List ℕ) × (r ≡ ended (post (exchange k)) (suc k) pauses)
      × (k ≤ max_retries)
      × (length pauses ≡ k)
      × (all_retried k ≡ true)
      × ((retried (post (exchange k)) ≡ false) ⊎ (k ≡ max_retries))

  length-pauses_after :
      (attempt : ℕ) (pauses : List ℕ)
      → ltb attempt max_retries ≡ true
      → length (pauses_after exchange max_retries attempt pauses) ≡ suc (length pauses)
  unfolding pauses_after
  length-pauses_after attempt pauses h = ground (arith, length-append pauses (suc attempt ∷ []))

  length-pauses_after_last :
      (attempt : ℕ) (pauses : List ℕ)
      → attempt ≡ max_retries
      → length (pauses_after exchange max_retries attempt pauses) ≡ length pauses
  unfolding pauses_after
  length-pauses_after_last attempt pauses h = ground arith

  -- one attempt, with what follows it where it is retried
  after-IsLast :
      (again : EngineError → List ℕ → Ended J) (attempt : ℕ) (pauses : List ℕ) (p : Posted J)
      → post (exchange attempt) ≡ p
      → attempt ≤ max_retries
      → length pauses ≡ attempt
      → all_retried attempt ≡ true
      → ((e : EngineError)
          → p ≡ refused e
          → is_retried e ≡ true
          → IsLast (again e (pauses_after exchange max_retries attempt pauses)))
      → IsLast (after_post exchange max_retries again attempt pauses p)
  unfolding after_post
  after-IsLast again attempt pauses (posted j) q le k before next = (
    attempt,
    pauses,
    ap (λ (x : Posted J). ended x (suc attempt) pauses) (sym q),
    le,
    k,
    before,
    inl (ap retried q),
  )
  after-IsLast again attempt pauses (refused e) q le k before next =
      if-split IsLast (is_retried e) (again e (pauses_after exchange max_retries attempt pauses))
        (ended (refused e) (suc attempt) pauses) (λ once_more. next e refl once_more)
        (λ final. (
          attempt,
          pauses,
          ap (λ (x : Posted J). ended x (suc attempt) pauses) (sym q),
          le,
          k,
          before,
          inl (ap retried q ∙ final),
        ))

  loop-IsLast :
      (rounds attempt : ℕ) (last : Option EngineError) (pauses : List ℕ)
      → rounds + attempt ≡ max_retries
      → length pauses ≡ attempt
      → all_retried attempt ≡ true
      → IsLast (retry_loop exchange max_retries (suc rounds) attempt last pauses)
  unfolding retry_loop
  loop-IsLast zero attempt last pauses h k before =
      after-IsLast (λ e ps. retry_loop exchange max_retries zero (suc attempt) (some e) ps) attempt
        pauses (post (exchange attempt)) refl (omega arith) k before
        (λ e q again. (
          attempt,
          pauses_after exchange max_retries attempt pauses,
          ap
              (λ (x : Posted J).
                ended x (suc attempt) (pauses_after exchange max_retries attempt pauses))
              (sym q),
          omega arith,
          omega (arith, length-pauses_after_last attempt pauses),
          before,
          inr (omega arith),
        ))
  loop-IsLast (suc rounds) attempt last pauses h k before =
      after-IsLast (λ e ps. retry_loop exchange max_retries (suc rounds) (suc attempt) (some e) ps)
        attempt pauses (post (exchange attempt)) refl (omega arith) k before
        (λ e q again.
          loop-IsLast rounds (suc attempt) (some e)
            (pauses_after exchange max_retries attempt pauses) (omega arith)
            (ground (arith, length-pauses_after attempt pauses))
            (and-intro (retried (post (exchange attempt))) (all_retried attempt)
              (ap retried q ∙ again) before))

  -- The endpoint is asked at least once and at most `max_retries + 1` times, with a pause between the attempts.
  -- What is returned is the outcome of the last attempt; all before it failed with an error that is retried, and
  -- it did not, or no retry was left. The assertion never fails.
  pub post_with_retries-IsLast : IsLast (post_with_retries exchange max_retries)
  unfolding post_with_retries
  post_with_retries-IsLast = loop-IsLast max_retries 0 none [] (omega arith) refl refl
