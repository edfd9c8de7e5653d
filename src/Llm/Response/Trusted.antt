-- ===== src/Llm/Response/Trusted.antt =====
-- What src/text_to_sql/llm/openai_adapter.py accepts as an answer.
use mathlib.Core.Path.{subst}
use build_your_own_text2sql.Base.{
  String, true, Option, none, some, if◌then◌else◌, ◌≡◌, refl, sym, ap, ◌∙◌, ◌⊎◌, inl, inr, if-split,
  arith, or_default,
}
use build_your_own_text2sql.Base.Text.{strip}
use build_your_own_text2sql.Domain.Enums.{SqlDialect}
use build_your_own_text2sql.Llm.Json.{
  Json, Members, null, boolean, number, text, array, object, find_member,
}
use build_your_own_text2sql.Llm.Response.{
  Python, Result, ok, invalid, crashed, ◌>>=◌, or_bad, bad_output, clamp, coerce_confidence,
  ProviderAnswer, content_of, loaded, with_text, sql_of, answer_of, parse_response,
}

bind-ok :
    {A B : Type 0} (m : Result A) (f : A → Result B) (b : B)
    → (m >>= f) ≡ ok b
    → (a : A) × (m ≡ ok a) × (f a ≡ ok b)
unfolding ◌>>=◌
bind-ok (ok a) f b h = (a, refl, h)
bind-ok (invalid e) f b h = cc
bind-ok crashed f b h = cc

abbrev ok_or : {A : Type 0} → A → Result A → A
ok_or a (ok b) = b
ok_or a (invalid e) = a
ok_or a crashed = a

or_bad-ok :
    {A : Type 0} (message : String) (o : Option A) (a : A) → or_bad message o ≡ ok a → o ≡ some a
unfolding or_bad bad_output
or_bad-ok message none a h = cc
or_bad-ok message (some b) a h = ground arith

-- what holds of every answer
Ensures : {A : Type 0} → (A → Type 0) → Result A → Type 0
Ensures P (ok a) = P a
Ensures P (invalid e) = Unit
Ensures P crashed = Unit

bind-Ensures :
    {A B : Type 0} (P : B → Type 0) (m : Result A) (f : A → Result B)
    → ((a : A) → Ensures P (f a))
    → Ensures P (m >>= f)
unfolding Ensures ◌>>=◌
bind-Ensures P (ok a) f h = h a
bind-Ensures P (invalid e) f h = tt
bind-Ensures P crashed f h = tt

Ensures-ok : {A : Type 0} (P : A → Type 0) (r : Result A) (a : A) → Ensures P r → r ≡ ok a → P a
unfolding Ensures
Ensures-ok P (ok b) a h e = subst P (ap (ok_or b) e) h
Ensures-ok P (invalid err) a h e = cc
Ensures-ok P crashed a h e = cc

pure-Ensures : {A : Type 0} (P : A → Type 0) (a : A) → P a → Ensures P (ok a)
unfolding Ensures
pure-Ensures P a h = h

module _ (python : Python) where
  open python use {Number, nought, one, half, less, loads, to_float}

  -- a number from 0 to 1
  abbrev pub InUnit : Number → Type 0
  InUnit c = (c ≡ nought) ⊎ ((c ≡ one) ⊎ (less nought c ≡ true) × (less c one ≡ true))

  clamp-InUnit : (c : Number) → InUnit (clamp python c)
  unfolding clamp
  clamp-InUnit c =
      let outer = λ (x : Number) (either : (x ≡ one) ⊎ (less x one ≡ true)).
        if-split InUnit (less nought x) x nought
          (λ above. inr (elim either [ inl e ↦ inl e | inr below ↦ inr (above, below) ]))
          (λ _. inl refl) in
      if-split (λ (x : Number). InUnit (if less nought x then x else nought)) (less c one) c one
        (λ below. outer c (inr below)) (λ _. outer one (inl refl))

  loaded-ok :
      (content j : Json Number)
      → loaded python content ≡ ok j
      → (s : String) × (content ≡ text s) × (loads s ≡ some j)
  unfolding loaded
  loaded-ok (text s) j h = (s, refl, or_bad-ok _ (loads s) j h)
  loaded-ok null j h = cc
  loaded-ok (boolean b) j h = cc
  loaded-ok (number n) j h = cc
  loaded-ok (array xs) j h = cc
  loaded-ok (object ms) j h = cc

  with_text-ok :
      (ms : Members Number) (o : Option (Json Number)) (found : Members Number × String)
      → with_text python ms o ≡ ok found
      → (found.0 ≡ ms) × (o ≡ some (text found.1))
  unfolding with_text bad_output
  with_text-ok ms (some (text s)) found h =
      let e : (ms, s) ≡ found = ap (ok_or (ms, s)) h in
      (
        sym (ap (λ (x : Members Number × String). x.0) e),
        ap (λ (x : Members Number × String). some (text x.1)) e,
      )
  with_text-ok ms none found h = cc
  with_text-ok ms (some null) found h = cc
  with_text-ok ms (some (boolean b)) found h = cc
  with_text-ok ms (some (number n)) found h = cc
  with_text-ok ms (some (array xs)) found h = cc
  with_text-ok ms (some (object os)) found h = cc

  sql_of-ok :
      (j : Json Number) (found : Members Number × String)
      → sql_of python j ≡ ok found
      → (j ≡ object found.0) × (find_member found.0 "sql" ≡ some (text found.1))
  unfolding sql_of bad_output
  sql_of-ok (object ms) found h =
      let (same, e) = with_text-ok ms (find_member ms "sql") found h in
      (ap object (sym same), ap (λ (x : Members Number). find_member x "sql") same ∙ e)
  sql_of-ok null found h = cc
  sql_of-ok (boolean b) found h = cc
  sql_of-ok (number n) found h = cc
  sql_of-ok (text s) found h = cc
  sql_of-ok (array xs) found h = cc

  coerce_confidence-InUnit :
      (half_ok : InUnit half) (value : Option (Json Number))
      → InUnit (coerce_confidence python value)
  unfolding coerce_confidence
  coerce_confidence-InUnit half_ok value =
      elim (to_float (or_default null value))
        as (λ (o : Option Number). InUnit (elim o [ none ↦ half | some c ↦ clamp python c ])) [
          | none ↦ half_ok
          | some c ↦ clamp-InUnit c
        ]

  module _ (prompt_version provider model : String) (request_dialect : SqlDialect) where
    answer_of-ok :
        (response : Json Number) (found : Members Number × String) (g : ProviderAnswer python)
        → InUnit half
        → answer_of python prompt_version provider model request_dialect response found ≡ ok g
        → (g.sql ≡ strip found.1) × InUnit g.confidence
    unfolding answer_of
    answer_of-ok response (ms, sql) g half_ok h =
        let P = λ (x : ProviderAnswer python). (x.sql ≡ strip sql) × InUnit x.confidence in
        Ensures-ok P
          (answer_of python prompt_version provider model request_dialect response (ms, sql)) g
          (bind-Ensures P _ _ (λ usage. bind-Ensures P _ _ (λ tables. bind-Ensures P _ _ (λ columns.
            bind-Ensures P _ _ (λ assumptions.
              pure-Ensures P _
                (refl, coerce_confidence-InUnit half_ok (find_member ms "confidence")))))))
          h

    -- An answer is only ever the "sql" text of a JSON object that is itself the content of the provider's first
    -- choice, without the blanks around it, and its confidence lies between 0 and 1, whatever number the
    -- provider claims.
    pub parse_response-ok :
        (response : Json Number) (g : ProviderAnswer python)
        → InUnit half
        → parse_response python prompt_version provider model request_dialect response ≡ ok g
        → (content sql : String) × (ms : Members Number) × (content_of python response
            ≡ some (text content))
          × (loads content ≡ some (object ms))
          × (find_member ms "sql" ≡ some (text sql))
          × (g.sql ≡ strip sql)
          × InUnit g.confidence
    unfolding parse_response
    parse_response-ok response g half_ok h =
        let reading = answer_of python prompt_version provider model request_dialect response in
        let (value, h1, k1) =
          bind-ok (or_bad "Provider response missing message content." (content_of python response))
            (λ content. loaded python content >>= (λ obj. sql_of python obj >>= reading)) g h in
        let (j, h2, k2) =
          bind-ok (loaded python value) (λ obj. sql_of python obj >>= reading) g k1 in
        let (found, h3, k3) = bind-ok (sql_of python j) reading g k2 in
        let (content, e1, e2) = loaded-ok value j h2 in
        let (e3, e4) = sql_of-ok j found h3 in
        let (e5, unit) = answer_of-ok response found g half_ok k3 in
        (
          content,
          found.1,
          found.0,
          or_bad-ok _ (content_of python response) value h1 ∙ ap some e1,
          e2 ∙ ap some e3,
          e4,
          e5,
          unit,
        )
