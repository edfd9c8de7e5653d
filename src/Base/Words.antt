-- ===== src/Base/Words.antt =====
-- Slices, words and tests on all characters of a text, as Python's `str` has them.
use Prim.Native.Nat.{ℕ, zero, suc, ◌+◌, ◌≤◌}
use Prim.Native.Char.{Char}
use Prim.Native.String.{String}
use mathlib.Core.Path.{◌≡◌, refl}
use mathlib.Core.Bool.{Bool, true, ◌&&◌}
use mathlib.Core.List.{List, [], ◌∷◌}
use native.Mathlib.Omega.{arith}
use text.Mathlib.TextLemmas.{nil-append, cons-append}
use build_your_own_text2sql.Base.Tests.{if◌then◌else◌, if-split, if-holds, and-eq-true, and-intro}
use build_your_own_text2sql.Base.Lists.{All}
use build_your_own_text2sql.Base.Text.{
  ◌+s◌, is_empty, is_space, reverse_text, drop_left, join, text_length,
}

-- `s[:n]`
unfoldable pub take_text : ℕ → String → String
take_text zero s = String.[]
take_text (suc n) String.[] = String.[]
take_text (suc n) (String.◌∷◌ c s) = String.◌∷◌ c (take_text n s)

-- `s.rstrip()`
unfoldable pub rstrip : String → String
unfolding reverse_text drop_left is_space
rstrip s = reverse_text (drop_left is_space (reverse_text s "")) ""

-- the runs of characters that satisfy the test; the run that is read is kept reversed
unfoldable pub whole_run : String → List String → List String
unfolding reverse_text
whole_run acc rest = if is_empty acc then rest else reverse_text acc "" ∷ rest

unfoldable pub runs_of : (Char → Bool) → String → String → List String
unfolding whole_run
runs_of p acc String.[] = whole_run acc []
runs_of p acc (String.◌∷◌ c s) =
    let inside = runs_of p (String.◌∷◌ c acc) s in
    let parted = whole_run acc (runs_of p "" s) in if p c then inside else parted

-- Every character satisfies the test.
unfoldable pub all_chars : (Char → Bool) → String → Bool
all_chars p String.[] = true
all_chars p (String.◌∷◌ c s) = p c && all_chars p s

pub text_length-append : (s t : String) → text_length (s +s t) ≡ text_length s + text_length t
unfolding text_length
text_length-append String.[] t = rw (nil-append t) (omega arith)
text_length-append (String.◌∷◌ c s) t =
    rw (cons-append c s t) (omega (arith, text_length-append s t))

pub text_length-take_text : (n : ℕ) (s : String) → text_length (take_text n s) ≤ n
unfolding take_text text_length
text_length-take_text zero s = omega arith
text_length-take_text (suc n) String.[] = omega arith
text_length-take_text (suc n) (String.◌∷◌ c s) = omega (arith, text_length-take_text n s)

text_length-reverse_text :
    (s acc : String) → text_length (reverse_text s acc) ≡ text_length s + text_length acc
unfolding reverse_text text_length
text_length-reverse_text String.[] acc = omega arith
text_length-reverse_text (String.◌∷◌ c s) acc =
    omega (arith, text_length-reverse_text s (String.◌∷◌ c acc))

text_length-drop_left : (p : Char → Bool) (s : String) → text_length (drop_left p s) ≤ text_length s
unfolding drop_left text_length
text_length-drop_left p String.[] = omega arith
text_length-drop_left p (String.◌∷◌ c s) =
    if-split (λ (t : String). text_length t ≤ suc (text_length s)) (p c) _ _
      (λ _. omega (arith, text_length-drop_left p s)) (λ _. omega arith)

pub text_length-rstrip : (s : String) → text_length (rstrip s) ≤ text_length s
unfolding rstrip text_length
text_length-rstrip s =
    let back = reverse_text s "" in
    omega (
      arith,
      text_length-reverse_text s "",
      text_length-drop_left is_space back,
      text_length-reverse_text (drop_left is_space back) "",
    )

module _ (p : Char → Bool) where
  pub all_chars_mono :
      (q : Char → Bool) (s : String)
      → ((c : Char) → p c ≡ true → q c ≡ true)
      → all_chars p s ≡ true
      → all_chars q s ≡ true
  unfolding all_chars
  all_chars_mono q String.[] h k = refl
  all_chars_mono q (String.◌∷◌ c s) h k =
      let (this, rest) = and-eq-true (p c) (all_chars p s) k in
      and-intro (q c) (all_chars q s) (h c this) (all_chars_mono q s h rest)

  pub all_chars-append : (s t : String) → all_chars p (s +s t) ≡ (all_chars p s && all_chars p t)
  unfolding all_chars
  all_chars-append String.[] t = rw (nil-append t) refl
  all_chars-append (String.◌∷◌ c s) t =
      rw (cons-append c s t) (ground (arith, all_chars-append s t))

  pub all_chars-drop_left :
      (q : Char → Bool) (s : String) → all_chars p s ≡ true → all_chars p (drop_left q s) ≡ true
  unfolding all_chars drop_left
  all_chars-drop_left q String.[] h = h
  all_chars-drop_left q (String.◌∷◌ c s) h =
      if-split (λ (t : String). all_chars p t ≡ true) (q c) (drop_left q s) (String.◌∷◌ c s)
        (λ _. all_chars-drop_left q s (and-eq-true (p c) (all_chars p s) h).1) (λ _. h)

  pub all_chars-reverse_text :
      (s acc : String) → all_chars p (reverse_text s acc) ≡ (all_chars p s && all_chars p acc)
  unfolding all_chars reverse_text
  all_chars-reverse_text String.[] acc = refl
  all_chars-reverse_text (String.◌∷◌ c s) acc =
      ground (arith, all_chars-reverse_text s (String.◌∷◌ c acc))

  pub all_chars-take_text :
      (n : ℕ) (s : String) → all_chars p s ≡ true → all_chars p (take_text n s) ≡ true
  unfolding all_chars take_text
  all_chars-take_text zero s h = refl
  all_chars-take_text (suc n) String.[] h = refl
  all_chars-take_text (suc n) (String.◌∷◌ c s) h = ground (arith, all_chars-take_text n s)

  pub all_chars-join :
      (sep : String) (xs : List String)
      → all_chars p sep ≡ true
      → All (λ x. all_chars p x ≡ true) xs
      → all_chars p (join sep xs) ≡ true
  unfolding join all_chars
  all_chars-join sep [] h k = refl
  all_chars-join sep (x ∷ []) h (k, _) = k
  all_chars-join sep (x ∷ y ∷ ys) h (k, ks) = rw (all_chars-append x (sep +s join sep (y ∷ ys))) (
      and-intro (all_chars p x) (all_chars p (sep +s join sep (y ∷ ys))) k (
        rw (all_chars-append sep (join sep (y ∷ ys))) (
          and-intro (all_chars p sep) (all_chars p (join sep (y ∷ ys))) h
            (all_chars-join sep (y ∷ ys) h ks))))

  whole_run-All :
      (acc : String) (rest : List String)
      → all_chars p acc ≡ true
      → All (λ x. all_chars p x ≡ true) rest
      → All (λ x. all_chars p x ≡ true) (whole_run acc rest)
  unfolding whole_run all_chars
  whole_run-All acc rest h k =
      if-holds (All (λ x. all_chars p x ≡ true)) (is_empty acc) {x = rest}
        {y = reverse_text acc "" ∷ rest} k (ground (arith, all_chars-reverse_text acc ""), k)

  -- a run consists of characters that satisfy the test
  pub runs_of-All :
      (acc s : String) → all_chars p acc ≡ true → All (λ x. all_chars p x ≡ true) (runs_of p acc s)
  unfolding runs_of all_chars
  runs_of-All acc String.[] h = whole_run-All acc [] h tt
  runs_of-All acc (String.◌∷◌ c s) h =
      if-split (All (λ x. all_chars p x ≡ true)) (p c) _ _
        (λ inside. runs_of-All (String.◌∷◌ c acc) s (and-intro (p c) (all_chars p acc) inside h))
        (λ outside. whole_run-All acc (runs_of p "" s) h (runs_of-All "" s refl))
