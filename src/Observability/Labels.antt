-- ===== src/Observability/Labels.antt =====
-- Label sets of src/text_to_sql/observability/metrics.py: their keys and their text.
pub mod Escape
use Prim.Native.Char.{Char, char, code}
use Prim.Native.String
use Prim.Native.String.{String}
use text.Mathlib.TextEquality.{eq_iff}
use build_your_own_text2sql.Base.{
  ℕ, Bool, true, false, ◌&&◌, ◌||◌, not, Option, none, some, List, [], ◌∷◌, ◌++◌, map, ◌==◌,
  if◌then◌else◌, ◌≡◌, refl, arith, ap, ◌∙◌,
}
use build_your_own_text2sql.Base.Text.{◌=s=◌, ◌+s◌, text_le, join}

abbrev pub LabelKey : Type 0
LabelKey = List (String × String)

-- the order of pairs of texts
pair_le : String × String → String × String → Bool
pair_le (a, b) (c, d) = if a =s= c then text_le b d else text_le a c

label_in : String × String → LabelKey → LabelKey
unfolding pair_le
label_in p [] = p ∷ []
label_in p (q ∷ qs) = if pair_le p q then p ∷ q ∷ qs else q ∷ label_in p qs

-- `_label_key`: `tuple(sorted(labels.items()))`
unfoldable pub label_key : List (String × String) → List (String × String)
unfolding label_in
label_key [] = []
label_key (p ∷ ps) = label_in p (label_key ps)

unfoldable pub key_eq : List (String × String) → List (String × String) → Bool
key_eq [] [] = true
key_eq [] (q ∷ qs) = false
key_eq (p ∷ ps) [] = false
key_eq ((a, b) ∷ ps) ((c, d) ∷ qs) = (a =s= c) && ((b =s= d) && key_eq ps qs)

-- the order of tuples of pairs, as `sorted` compares keys
unfoldable pub key_le : List (String × String) → List (String × String) → Bool
unfolding pair_le
key_le [] qs = true
key_le (p ∷ ps) [] = false
key_le ((a, b) ∷ ps) ((c, d) ∷ qs) =
    let rest = key_le ps qs in if (a =s= c) && (b =s= d) then rest else pair_le (a, b) (c, d)

-- `value.replace(c, …)` for one character; `lead` puts the replacement before a text
unfoldable pub replace_char : ℕ → (String → String) → String → String
replace_char n lead String.[] = ""
replace_char n lead (String.◌∷◌ c s) =
    let rest = replace_char n lead s in if code c == n then lead rest else String.◌∷◌ c rest

abbrev pub backslash : Char
backslash = char 92 tt

abbrev pub quote : Char
quote = char 34 tt

abbrev pub space : Char
space = char 32 tt

-- `_escape`: backslashes, then quotes, then line feeds
unfoldable pub escape : String → String
unfolding replace_char
escape value =
    replace_char 10 (λ r. String.◌∷◌ space r)
      (replace_char 34 (λ r. String.◌∷◌ backslash (String.◌∷◌ quote r))
        (replace_char 92 (λ r. String.◌∷◌ backslash (String.◌∷◌ backslash r)) value))

label_text : String × String → String
unfolding escape
label_text (name, value) = name +s "=\"" +s escape value +s "\""

-- `_render_labels`
unfoldable pub render_labels : List (String × String) → List (String × String) → String
unfolding label_text join
render_labels key extra = elim (map label_text (key ++ extra)) [
  | [] ↦ ""
  | x ∷ xs ↦ "{" +s join "," (x ∷ xs) +s "}"
]

render_labels_runs :
    render_labels (label_key (("stage", "a\"b") ∷ ("code", "x\\y") ∷ [])) []
    ≡ "{code=\"x\\\\y\",stage=\"a\\\"b\"}"
unfolding render_labels label_key
render_labels_runs = refl

pub key_eq_refl : (k : List (String × String)) → key_eq k k ≡ true
unfolding key_eq
key_eq_refl [] = refl
key_eq_refl ((a, b) ∷ k) = ground (arith, eq_iff a a, eq_iff b b, key_eq_refl k)

pub key_eq-eq : (j k : List (String × String)) → key_eq j k ≡ true → j ≡ k
unfolding key_eq
key_eq-eq [] [] h = refl
key_eq-eq [] (q ∷ qs) h = cc
key_eq-eq (p ∷ ps) [] h = cc
key_eq-eq ((a, b) ∷ ps) ((c, d) ∷ qs) h = ground (arith, eq_iff a c, eq_iff b d, key_eq-eq ps qs)
