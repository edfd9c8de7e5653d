-- ===== src/Observability/Labels/Escape.antt =====
-- A label value that src/text_to_sql/observability/metrics.py escapes can be read back.
use Prim.Native.Char.{Char, char, code}
use Prim.Native.String.{String}
use text.Mathlib.TextEquality.{Char-path}
use build_your_own_text2sql.Base.{
  true, false, Option, none, some, ◌==◌, if◌then◌else◌, ◌≡◌, refl, arith, ap, ◌∙◌, Bool-cases, inl,
  inr,
}
use build_your_own_text2sql.Observability.Labels.{replace_char, escape, backslash, quote, space}

char_of : (c d : Char) → (code c == code d) ≡ true → c ≡ d
char_of c d h = Char-path c d (ground arith)

abbrev prepend : Char → Option (String × String) → Option (String × String)
prepend c none = none
prepend c (some p) = some (String.◌∷◌ c p.0, p.1)

-- A reader of the exposition format: a label value up to its closing quote, and what follows it. After a
-- backslash a character stands for itself.
unfoldable pub read_value : String → Option (String × String)
read_value String.[] = none
read_value (String.◌∷◌ c String.[]) = if code c == 34 then some ("", "") else none
read_value (String.◌∷◌ c (String.◌∷◌ d s)) =
    let escaped = prepend d (read_value s) in
    let plain = prepend c (read_value (String.◌∷◌ d s)) in
    if code c == 34 then some ("", String.◌∷◌ d s) else if code c == 92 then escaped else plain

-- line feeds are spaces
unfoldable pub flat_lines : String → String
unfolding replace_char
flat_lines = replace_char 10 (λ r. String.◌∷◌ space r)

-- the value, its closing quote and the rest of the line
unfoldable pub quoted : String → String → String
quoted String.[] rest = String.◌∷◌ quote rest
quoted (String.◌∷◌ c s) rest = String.◌∷◌ c (quoted s rest)

read-plain :
    (c : Char) (s rest : String)
    → (code c == 34) ≡ false
    → (code c == 92) ≡ false
    → read_value (quoted (String.◌∷◌ c s) rest) ≡ prepend c (read_value (quoted s rest))
unfolding read_value quoted
read-plain c String.[] rest h k = ground arith
read-plain c (String.◌∷◌ d s) rest h k = ground arith

read-quote : (rest : String) → read_value (String.◌∷◌ quote rest) ≡ some ("", rest)
unfolding read_value
read-quote String.[] = refl
read-quote (String.◌∷◌ d s) = refl

-- after a backslash a character stands for itself
read-escaped :
    (d : Char) (s rest : String)
    → read_value (quoted (String.◌∷◌ backslash (String.◌∷◌ d s)) rest)
      ≡ prepend d (read_value (quoted s rest))
unfolding read_value quoted
read-escaped d s rest = refl

escape-back :
    (c : Char) (v : String)
    → (code c == 92) ≡ true
    → escape (String.◌∷◌ c v) ≡ String.◌∷◌ backslash (String.◌∷◌ backslash (escape v))
unfolding escape replace_char
escape-back c v h = rw h refl

escape-quote :
    (c : Char) (v : String)
    → (code c == 34) ≡ true
    → escape (String.◌∷◌ c v) ≡ String.◌∷◌ backslash (String.◌∷◌ quote (escape v))
unfolding escape replace_char
escape-quote c v h = rw (char_of c quote h) refl

escape-feed :
    (c : Char) (v : String)
    → (code c == 10) ≡ true
    → escape (String.◌∷◌ c v) ≡ String.◌∷◌ space (escape v)
unfolding escape replace_char
escape-feed c v h = rw (char_of c (char 10 tt) h) refl

escape-plain :
    (c : Char) (v : String)
    → (code c == 92) ≡ false
    → (code c == 34) ≡ false
    → (code c == 10) ≡ false
    → escape (String.◌∷◌ c v) ≡ String.◌∷◌ c (escape v)
unfolding escape replace_char
escape-plain c v h k l = rw h (rw k (rw l refl))

-- Whatever the value, the escaped text up to the first quote that no backslash precedes is read back as the
-- value, line feeds as spaces; what follows the quote is untouched.
pub read_value-escape :
    (v rest : String) → read_value (quoted (escape v) rest) ≡ some (flat_lines v, rest)
unfolding flat_lines replace_char escape quoted read_value
read_value-escape String.[] rest = read-quote rest
read_value-escape (String.◌∷◌ c v) rest = elim (Bool-cases (code c == 92)) [
  | inl back ↦ rw (escape-back c v back) (
      read-escaped backslash (escape v) rest
      ∙ ap (prepend backslash) (read_value-escape v rest)
      ∙ (rw (char_of c backslash back) refl))
  | inr other ↦ elim (Bool-cases (code c == 34)) [
    | inl quotes ↦ rw (escape-quote c v quotes) (
        read-escaped quote (escape v) rest
        ∙ ap (prepend quote) (read_value-escape v rest)
        ∙ (rw (char_of c quote quotes) refl))
    | inr no_quote ↦ elim (Bool-cases (code c == 10)) [
      | inl feed ↦ rw (escape-feed c v feed) (
          read-plain space (escape v) rest refl refl
          ∙ ap (prepend space) (read_value-escape v rest)
          ∙ (rw (char_of c (char 10 tt) feed) refl))
      | inr plain ↦ rw (escape-plain c v other no_quote plain) (
          read-plain c (escape v) rest no_quote other
          ∙ ap (prepend c) (read_value-escape v rest)
          ∙ (rw plain refl))
    ]
  ]
]
