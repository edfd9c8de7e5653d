-- ===== src/Retrieval/Tokens.antt =====
-- The tokens of a text: `_STOPWORDS` and `_tokenize` of src/text_to_sql/retrieval/retriever.py.
use Prim.Native.Char.{Char, code}
use Prim.Native.String.{String}
use build_your_own_text2sql.Base.{
  Bool, ◌&&◌, ◌||◌, ◌≡◌, refl, List, [], ◌∷◌, leb, ltb, ◌==◌, if◌then◌else◌,
}
use build_your_own_text2sql.Base.Text.{lower, contains, is_empty, text_length}
use build_your_own_text2sql.Base.Dict.{add}
use build_your_own_text2sql.Base.Words.{runs_of}

abbrev stopwords : List String
stopwords =
    "the" ∷ "a" ∷ "an" ∷ "of" ∷ "by" ∷ "for" ∷ "to" ∷ "in" ∷ "on" ∷ "and" ∷ "or" ∷ "with" ∷ "show"
    ∷ "list" ∷ "get" ∷ "give" ∷ "me" ∷ "our" ∷ "what" ∷ "which" ∷ "how" ∷ "many" ∷ "much" ∷ "was"
    ∷ "were" ∷ "is" ∷ "are" ∷ "that" ∷ "this" ∷ "over" ∷ "per" ∷ "each" ∷ "all" ∷ "top" ∷ "last"
    ∷ "past" ∷ "year" ∷ "month" ∷ "quarter" ∷ "week" ∷ "day" ∷ "days" ∷ "compare" ∷ "between"
    ∷ "from" ∷ "have" ∷ "has" ∷ "not" ∷ "who" ∷ "their" ∷ "them" ∷ "did" ∷ "do" ∷ "does" ∷ "count"
    ∷ "number" ∷ []

-- `[a-z0-9]`
is_token_char : Char → Bool
is_token_char c = leb 97 (code c) && leb (code c) 122 || leb 48 (code c) && leb (code c) 57

-- `tok.endswith("s")`, and `tok[:-1]`
ends_with_s : String → Bool
ends_with_s String.[] = Bool.false
ends_with_s (String.◌∷◌ c String.[]) = code c == b's'
ends_with_s (String.◌∷◌ c (String.◌∷◌ d s)) = ends_with_s (String.◌∷◌ d s)

but_last : String → String
but_last String.[] = ""
but_last (String.◌∷◌ c String.[]) = ""
but_last (String.◌∷◌ c (String.◌∷◌ d s)) = String.◌∷◌ c (but_last (String.◌∷◌ d s))

add_token : List String → String → List String
unfolding add text_length ends_with_s but_last
add_token tokens tok =
    let more = add tokens tok in
    if is_empty tok || contains stopwords tok || ltb (text_length tok) 3
    then tokens
    else if ends_with_s tok && ltb 3 (text_length tok)
    then add more (but_last tok)
    else more

add_tokens : List String → List String → List String
unfolding add_token
add_tokens tokens [] = tokens
add_tokens tokens (tok ∷ toks) = add_tokens (add_token tokens tok) toks

-- the pieces of `re.split` that are not empty
unfoldable pub tokenize : String → List String
unfolding add_tokens runs_of is_token_char lower
tokenize text = add_tokens [] (runs_of is_token_char "" (lower text))

tokenize_runs :
    tokenize "Show me the Orders of 2024, by-region" ≡ "orders" ∷ "order" ∷ "2024" ∷ "region" ∷ []
unfolding tokenize
tokenize_runs = refl
