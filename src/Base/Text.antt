-- ===== src/Base/Text.antt =====
-- Python's `str` operations that the program uses, over the native text. `lower`, `upper` and
-- `strip` are exact on ASCII.
use Prim.Native.Nat.{ℕ, zero, suc, ◌/◌, ◌%◌}
use Prim.Native.Char.{Char, code}
use Prim.Native.String
use Prim.Native.String.{String}
use mathlib.Core.Path.{◌≡◌, refl}
use mathlib.Core.Bool.{Bool, true, false, ◌&&◌, ◌||◌}
use mathlib.Core.List.{List, [], ◌∷◌}
use text.Mathlib.Text.{◌==◌ as text_eq, is_le}
use build_your_own_text2sql.Base.Tests.{ltb, leb, ◌==◌, if◌then◌else◌}
use build_your_own_text2sql.Base.Lists.{any}

-- `s == t`
infix 50 ◌=s=◌
abbrev pub ◌=s=◌ : String → String → Bool
s =s= t = text_eq s t

-- `s in {…}`, a set of texts as a list
abbrev pub contains : List String → String → Bool
contains xs s = any (λ x. x =s= s) xs

-- `s + t`, the joint of an f-string
infixr 66 ◌+s◌
abbrev pub ◌+s◌ : String → String → String
s +s t = String.◌++◌ s t

abbrev pub is_empty : String → Bool
is_empty s = s =s= ""

-- `str.translate` along two tables of the same length
translate : String → String → Char → Char
translate (String.◌∷◌ u us) (String.◌∷◌ v vs) c = if code c == code u then v else translate us vs c
translate _ String.[] c = c
translate String.[] _ c = c

map_chars : (Char → Char) → String → String
map_chars f String.[] = String.[]
map_chars f (String.◌∷◌ c s) = String.◌∷◌ (f c) (map_chars f s)

abbrev uppers : String
uppers = "ABCDEFGHIJKLMNOPQRSTUVWXYZ"

abbrev lowers : String
lowers = "abcdefghijklmnopqrstuvwxyz"

-- `s.lower()` and `s.upper()`
unfoldable pub lower : String → String
unfolding translate map_chars
lower = map_chars (translate uppers lowers)

unfoldable pub upper : String → String
unfolding translate map_chars
upper = map_chars (translate lowers uppers)

lower_runs : lower "Users_2" ≡ "users_2"
unfolding lower
lower_runs = refl

unfoldable pub reverse_text : String → String → String
reverse_text String.[] acc = acc
reverse_text (String.◌∷◌ c s) acc = reverse_text s (String.◌∷◌ c acc)

unfoldable pub drop_left : (Char → Bool) → String → String
drop_left p String.[] = String.[]
drop_left p (String.◌∷◌ c s) = if p c then drop_left p s else String.◌∷◌ c s

-- `s.strip(chars)`, by the test on one character
unfoldable pub strip_by : (Char → Bool) → String → String
unfolding reverse_text drop_left
strip_by p s = reverse_text (drop_left p (reverse_text (drop_left p s) "")) ""

unfoldable pub is_space : Char → Bool
is_space c = code c == 32 || leb 9 (code c) && leb (code c) 13 || leb 28 (code c) && leb (code c) 31

unfoldable pub strip : String → String
unfolding strip_by is_space
strip = strip_by is_space

-- `len(s)`
unfoldable pub text_length : String → ℕ
text_length String.[] = 0
text_length (String.◌∷◌ c s) = suc (text_length s)

-- `s.startswith(p)`
unfoldable pub starts_with : String → String → Bool
starts_with s String.[] = true
starts_with String.[] (String.◌∷◌ d p) = false
starts_with (String.◌∷◌ c s) (String.◌∷◌ d p) = code c == code d && starts_with s p

-- `p in s`
unfoldable pub has_substring : String → String → Bool
unfolding starts_with
has_substring p String.[] = is_empty p
has_substring p (String.◌∷◌ c s) = starts_with (String.◌∷◌ c s) p || has_substring p s

-- `s.partition(".")`: the parts before and after the first dot
unfoldable pub before_dot : String → String
before_dot String.[] = String.[]
before_dot (String.◌∷◌ c s) = if code c == b'.' then String.[] else String.◌∷◌ c (before_dot s)

unfoldable pub after_dot : String → String
after_dot String.[] = String.[]
after_dot (String.◌∷◌ c s) = if code c == b'.' then s else after_dot s

has_dot : String → Bool
has_dot String.[] = false
has_dot (String.◌∷◌ c s) = code c == b'.' || has_dot s

-- `s.split(".")[-1]`: the part after the last dot
unfoldable pub after_last_dot : String → String
unfolding has_dot
after_last_dot String.[] = String.[]
after_last_dot (String.◌∷◌ c s) =
    if has_dot s || code c == b'.' then after_last_dot s else String.◌∷◌ c s

last_dot_runs : after_last_dot "main.public.users" ≡ "users"
unfolding after_last_dot
last_dot_runs = refl

-- `sep.join(xs)`
unfoldable pub join : String → List String → String
join sep [] = ""
join sep (x ∷ []) = x
join sep (x ∷ y ∷ ys) = x +s sep +s join sep (y ∷ ys)

-- the ten digits, and `str(n)`; a number below 10 ^ fuel is printed whole
digit : ℕ → String
digit n =
    if n == 0
    then "0"
    else if n == 1
    then "1"
    else if n == 2
    then "2"
    else if n == 3
    then "3"
    else if n == 4
    then "4"
    else if n == 5
    then "5"
    else if n == 6
    then "6"
    else if n == 7
    then "7"
    else if n == 8
    then "8"
    else "9"

decimal_from : ℕ → ℕ → String
decimal_from zero n = ""
decimal_from (suc fuel) n =
    let more = decimal_from fuel (n / 10) +s digit (n % 10) in if ltb n 10 then digit n else more

unfoldable pub decimal : ℕ → String
unfolding decimal_from digit
decimal n = decimal_from (suc n) n

decimal_runs : decimal 1000 ≡ "1000"
unfolding decimal
decimal_runs = refl

-- The order of texts by code points, as `sorted` uses it.
abbrev pub text_le : String → String → Bool
text_le s t = is_le (String.compare s t)

unfoldable pub insert_sorted : String → List String → List String
insert_sorted s [] = s ∷ []
insert_sorted s (x ∷ xs) = if text_le s x then s ∷ x ∷ xs else x ∷ insert_sorted s xs

-- `sorted(xs)`
unfoldable pub sorted : List String → List String
unfolding insert_sorted
sorted [] = []
sorted (x ∷ xs) = insert_sorted x (sorted xs)

-- `list(dict.fromkeys(xs))`: the first of each, in order
unfoldable pub dedupe_from : List String → List String → List String
dedupe_from seen [] = []
dedupe_from seen (x ∷ xs) =
    let rest = dedupe_from seen xs in
    let more = x ∷ dedupe_from (x ∷ seen) xs in if contains seen x then rest else more

unfoldable pub dedupe : List String → List String
unfolding dedupe_from
dedupe = dedupe_from []

sorted_runs : sorted (dedupe ("b" ∷ "a" ∷ "b" ∷ [])) ≡ "a" ∷ "b" ∷ []
unfolding sorted dedupe
sorted_runs = refl
