-- ===== src/Sql/Validator/Comments/Fuel.antt =====
-- The scan of string literals of src/text_to_sql/sql/validator.py never runs out of fuel.
use Prim.Native.Char.{Char}
use Prim.Native.String
use build_your_own_text2sql.Base.{
  ℕ, zero, suc, ◌≤◌, ◌<◌, ◌≡◌, refl, ap, String, Bool, true, false, Option, none, some, arith,
  if-split, if◌then◌else◌,
}
use build_your_own_text2sql.Sql.Validator.Comments.{
  is_quote, close_literal, after_quote, strip_literals, size, has_marker, has_comment_marker,
}

-- what is left, if anything, is shorter than a bound
Shrinks : ℕ → Option String → Type 0
Shrinks n none = Unit
Shrinks n (some r) = size r < n

-- a doubled quote: what is left behind it, or what stood there
doubled-Shrinks :
    (n m : ℕ) (rest : String) (o : Option String)
    → Shrinks n o
    → n ≤ m
    → size rest < m
    → Shrinks m (elim o [ some r ↦ some r | none ↦ some rest ])
unfolding Shrinks
doubled-Shrinks n m rest none h le lt = lt
doubled-Shrinks n m rest (some r) h le lt = omega arith

Shrinks-le : (n m : ℕ) (o : Option String) → Shrinks n o → n ≤ m → Shrinks m o
unfolding Shrinks
Shrinks-le n m none h le = tt
Shrinks-le n m (some r) h le = omega arith

close_literal-Shrinks : (s : String) → Shrinks (size s) (close_literal s)
unfolding close_literal Shrinks size
close_literal-Shrinks String.[] = tt
close_literal-Shrinks (String.◌∷◌ c String.[]) =
    if-split (Shrinks 1) (is_quote c) _ _ (λ _. omega arith) (λ _. tt)
close_literal-Shrinks (String.◌∷◌ c (String.◌∷◌ d s)) =
    if-split (Shrinks (suc (suc (size s)))) (is_quote c) _ _
      (λ _.
        if-split (Shrinks (suc (suc (size s)))) (is_quote d) _ _
          (λ _.
            doubled-Shrinks (size s) _ _ (close_literal s) (close_literal-Shrinks s) (omega arith)
              (omega arith))
          (λ _. omega arith))
      (λ _. Shrinks-le (suc (size s)) _ _ (close_literal-Shrinks (String.◌∷◌ d s)) (omega arith))

if_agree :
    (b : Bool) {x y u v : String} → x ≡ y → u ≡ v → (if b then x else u) ≡ (if b then y else v)
if_agree true e f = e
if_agree false e f = f

after_quote-agree :
    (f g : String → String) (c : Char) (s : String) (o : Option String)
    → Shrinks (suc (size s)) o
    → ((r : String) → size r ≤ size s → f r ≡ g r)
    → after_quote f c s o ≡ after_quote g c s o
unfolding after_quote Shrinks
after_quote-agree f g c s none h same = ap (λ r. String.◌∷◌ c r) (same s (omega arith))
after_quote-agree f g c s (some r) h same = ap (λ q. String.◌++◌ "''" q) (same r (omega arith))

strip_literals-fuel :
    (n m : ℕ) (s : String) → size s ≤ n → size s ≤ m → strip_literals n s ≡ strip_literals m s
unfolding strip_literals size
strip_literals-fuel zero zero s h k = refl
strip_literals-fuel zero (suc m) String.[] h k = refl
strip_literals-fuel zero (suc m) (String.◌∷◌ c s) h k = absurd (omega arith)
strip_literals-fuel (suc n) zero String.[] h k = refl
strip_literals-fuel (suc n) zero (String.◌∷◌ c s) h k = absurd (omega arith)
strip_literals-fuel (suc n) (suc m) String.[] h k = refl
strip_literals-fuel (suc n) (suc m) (String.◌∷◌ c s) h k =
    let same : (r : String) → size r ≤ size s → strip_literals n r ≡ strip_literals m r =
      λ r le. strip_literals-fuel n m r (omega arith) (omega arith) in
    if_agree (is_quote c)
      (after_quote-agree (strip_literals n) (strip_literals m) c s (close_literal s)
        (Shrinks-le (size s) _ _ (close_literal-Shrinks s) (omega arith)) same)
      (ap (λ r. String.◌∷◌ c r) (same s (omega arith)))

-- The comment backstop does not depend on its fuel: with any fuel of at least the length of the text,
-- the search for a marker has the same answer.
has_comment_marker-fuel :
    (fuel : ℕ) (sql : String)
    → size sql ≤ fuel
    → has_marker (strip_literals fuel sql) ≡ has_comment_marker sql
unfolding has_comment_marker
has_comment_marker-fuel fuel sql h =
    ap has_marker (strip_literals-fuel fuel (size sql) sql h (omega arith))
