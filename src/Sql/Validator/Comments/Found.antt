-- ===== src/Sql/Validator/Comments/Found.antt =====
-- The comment markers that the backstop of src/text_to_sql/sql/validator.py finds: those outside of
-- string literals.
use Prim.Native.Char.{Char, char, code}
use build_your_own_text2sql.Base.{◌≡◌, String, Bool, true, false, not, ◌==◌, List, [], ◌∷◌}
use build_your_own_text2sql.Base.Text.{◌+s◌}
use build_your_own_text2sql.Base.Words.{all_chars}

unfoldable pub is_plain : Char → Bool
is_plain c = not (code c == 39)

-- A text in pieces: characters that are no quote, and literals without a quote inside.
pub data Piece : Type 0 where
  plain : Char → Piece
  literal : String → Piece

abbrev quote : Char
quote = char 39 tt

unfoldable pub text_of : List Piece → String
text_of [] = String.[]
text_of (plain c ∷ ps) = String.◌∷◌ c (text_of ps)
text_of (literal body ∷ ps) = String.◌∷◌ quote (body +s String.◌∷◌ quote (text_of ps))

-- the text with its literals emptied
unfoldable pub skeleton : List Piece → String
skeleton [] = String.[]
skeleton (plain c ∷ ps) = String.◌∷◌ c (skeleton ps)
skeleton (literal body ∷ ps) = "''" +s (skeleton ps)

abbrev pub starts_plain : List Piece → Bool
starts_plain [] = true
starts_plain (plain c ∷ ps) = is_plain c
starts_plain (literal body ∷ ps) = false

-- The pieces are as they should be, and no literal is next to another, which would double a quote.
abbrev pub IsLexed : List Piece → Type 0
IsLexed [] = Unit
IsLexed (plain c ∷ ps) = (is_plain c ≡ true) × IsLexed ps
IsLexed (literal body ∷ ps) =
    (all_chars is_plain body ≡ true) × (starts_plain ps ≡ true) × IsLexed ps

-- what opens or closes a comment, in PostgreSQL, MySQL or SQLite
abbrev pub comment_markers : List String
comment_markers = "--" ∷ "/*" ∷ "*/" ∷ "#" ∷ []
