-- ===== src/Sql/Validator/Comments.antt =====
-- `_comment_backstop` of src/text_to_sql/sql/validator.py: `_STRING_LITERAL.sub("''", sql)` and the
-- search for `_COMMENT_MARKER`.
pub mod Fuel
pub mod Found
use Prim.Native.Char.{Char, code}
use Prim.Native.String
use build_your_own_text2sql.Base.{
  ℕ, zero, suc, String, Bool, true, false, ◌||◌, ◌≡◌, refl, Option, none, some, arith, ◌==◌,
  if◌then◌else◌,
}
use build_your_own_text2sql.Base.Text.{has_substring}

abbrev is_quote : Char → Bool
is_quote c = code c == 39

-- The rest after a literal whose opening quote has been read, by `(?:[^']|'')*'`: a doubled quote
-- goes on, unless nothing closes the literal behind it; then its first quote closes.
close_literal : String → Option String
close_literal String.[] = none
close_literal (String.◌∷◌ c String.[]) = if is_quote c then some String.[] else none
close_literal (String.◌∷◌ c (String.◌∷◌ d s)) =
    let later = close_literal (String.◌∷◌ d s) in
    let doubled : Option String = elim (close_literal s) [
      | some r ↦ some r
      | none ↦ some (String.◌∷◌ d s)
    ] in
    if is_quote c then (if is_quote d then doubled else some (String.◌∷◌ d s)) else later

-- a quote with what follows it, by whether a literal opens there
after_quote : (String → String) → Char → String → Option String → String
after_quote again c s none = String.◌∷◌ c (again s)
after_quote again c s (some r) = String.◌++◌ "''" (again r)

-- one round of `sub` for each character at most
pub strip_literals : ℕ → String → String
unfolding close_literal
strip_literals zero s = s
strip_literals (suc fuel) String.[] = String.[]
strip_literals (suc fuel) (String.◌∷◌ c s) =
    let kept = String.◌∷◌ c (strip_literals fuel s) in
    let cut = after_quote (strip_literals fuel) c s (close_literal s) in
    if is_quote c then cut else kept

unfoldable pub size : String → ℕ
size String.[] = 0
size (String.◌∷◌ c s) = suc (size s)

pub has_marker : String → Bool
unfolding has_substring
has_marker s =
    has_substring "--" s || has_substring "/*" s || has_substring "*/" s || has_substring "#" s

unfoldable pub has_comment_marker : String → Bool
unfolding strip_literals size has_marker after_quote close_literal
has_comment_marker sql = has_marker (strip_literals (size sql) sql)

marker_tests :
    (has_comment_marker "SELECT '--' , 'it''s #'" ≡ false)
    × (has_comment_marker "SELECT 1 -- drop" ≡ true)
    × (has_comment_marker "SELECT '' /* x */" ≡ true)
    × (has_comment_marker "SELECT 'a' , 'b --" ≡ true)
unfolding has_comment_marker
marker_tests = (refl, refl, refl, refl)
