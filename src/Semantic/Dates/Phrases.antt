-- ===== src/Semantic/Dates/Phrases.antt =====
-- The patterns of src/text_to_sql/semantic/dates.py.
use Prim.Native.Char.{Char, code}
use build_your_own_text2sql.Base.{
  ℕ, ◌+◌, ◌-◌, ◌*◌, String, Bool, false, ◌&&◌, ◌||◌, Option, none, some, List, [], ◌∷◌, leb, ltb,
  ◌==◌, if◌then◌else◌, is_some,
}
use build_your_own_text2sql.Base.Text.{◌+s◌, is_space, text_length}

is_digit_char : Char → Bool
is_digit_char c = leb 48 (code c) && leb (code c) 57

-- `\w`
is_word : Char → Bool
is_word c =
    is_digit_char c
    || leb 65 (code c) && leb (code c) 90
    || leb 97 (code c) && leb (code c) 122
    || code c == 95

-- A match at the start of a text: what it consumes, and what is left.
abbrev pub Match : Type 0
Match = Option (String × String)

-- a literal
match_text : String → String → Match
match_text String.[] s = some ("", s)
match_text (String.◌∷◌ d w) String.[] = none
match_text (String.◌∷◌ d w) (String.◌∷◌ c s) =
    let rest = match_text w s in
    if code d == code c
    then elim rest [ none ↦ none | some p ↦ some (String.◌∷◌ c p.0, p.1) ]
    else none

-- the longest run of characters that satisfy the test
span : (Char → Bool) → String → String × String
span p String.[] = ("", "")
span p (String.◌∷◌ c s) =
    let rest = span p s in if p c then (String.◌∷◌ c rest.0, rest.1) else ("", String.◌∷◌ c s)

-- a run of `least` to `most` characters, which no shorter run can replace in these patterns, since
-- what follows it begins with another kind of character
match_run : (Char → Bool) → ℕ → ℕ → String → Match
match_run p least most s =
    let r = span p s in
    if leb least (text_length r.0) && leb (text_length r.0) most then some r else none

-- `\s+`
match_spaces : String → Match
match_spaces s = let r = span is_space s in if ltb 0 (text_length r.0) then some r else none

-- `\b` after a word character
match_end : String → Match
match_end String.[] = some ("", "")
match_end (String.◌∷◌ c s) = if is_word c then none else some ("", String.◌∷◌ c s)

-- one match after another
after : Match → (String → Match) → Match
after none next = none
after (some p) next = elim (next p.1) [ none ↦ none | some q ↦ some (p.0 +s q.0, q.1) ]

-- the words, parted by spaces, and a boundary
match_words : List String → String → Match
match_words [] s = match_end s
match_words (w ∷ []) s = after (match_text w s) match_end
match_words (w ∷ v ∷ ws) s = after (after (match_text w s) match_spaces) (match_words (v ∷ ws))

-- the first position at a word boundary, `inside` telling whether a word character is before it
search_from : (String → Match) → Bool → String → Match
unfolding is_word
search_from m inside String.[] = none
search_from m inside (String.◌∷◌ c s) =
    let rest = search_from m (is_word c) s in
    let here = if inside then none else m (String.◌∷◌ c s) in
    elim here [ none ↦ rest | some p ↦ some p ]

-- `re.compile(r"\b…\b").search(text)` as a truth value
pub has_phrase : List String → String → Bool
has_phrase words text = is_some (search_from (match_words words) false text)

-- the first of two matches
or_match : Match → Match → Match
or_match none m = m
or_match (some p) m = some p

match_last : String → Match
match_last s =
    or_match (match_text "last" s) (or_match (match_text "past" s) (match_text "previous" s))

-- `days?` and a boundary
match_days : String → Match
match_days s =
    or_match (after (match_text "days" s) match_end) (after (match_text "day" s) match_end)

number : ℕ → String → ℕ
number n String.[] = n
number n (String.◌∷◌ c s) = number (n * 10 + (code c - 48)) s

-- `\b(?:last|past|previous)\s+(\d{1,4})\s+days?\b`
match_last_days : String → Match
match_last_days s =
    after
      (after (after (after (match_last s) match_spaces) (match_run is_digit_char 1 4)) match_spaces)
      match_days

digits_of : String → String
digits_of String.[] = ""
digits_of (String.◌∷◌ c s) = if is_digit_char c then String.◌∷◌ c (digits_of s) else digits_of s

-- the number of days, and the phrase
pub find_days : String → Option (ℕ × String)
find_days text = elim (search_from match_last_days false text) [
  | none ↦ none
  | some p ↦ some (number 0 (digits_of p.0), p.0)
]

-- Opens all that a search computes with.
unfoldable pub phrases_runs : Unit {0}
unfolding has_phrase find_days search_from match_last_days match_last match_days match_words
    match_text match_run match_spaces match_end after or_match span text_length number digits_of
    is_word is_digit_char is_space
phrases_runs = tt
