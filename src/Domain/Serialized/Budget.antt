-- ===== src/Domain/Serialized/Budget.antt =====
-- The bounds of what src/text_to_sql/domain/schema_models.py puts into a prompt.
use Prim.Native.Char.{Char, code}
use Prim.Native.String.{String}
use build_your_own_text2sql.Base.{
  ℕ, List, [], ◌∷◌, ◌+◌, ◌≤◌, Bool, true, not, ◌||◌, ◌≡◌, refl, arith, ltb, ltb-false→le, ◌==◌,
  if-split, and-intro,
}
use build_your_own_text2sql.Base.Lists.{All}
use build_your_own_text2sql.Base.Text.{is_space, join, text_length}
use build_your_own_text2sql.Base.Words.{
  take_text, rstrip, runs_of, all_chars, all_chars-append, all_chars-take_text, all_chars-join,
  all_chars_mono, runs_of-All, text_length-append, text_length-take_text, text_length-rstrip,
}
use build_your_own_text2sql.Domain.Tables.{DatabaseSchema}
use build_your_own_text2sql.Domain.Serialized.{
  max_comment_len, is_solid, flatten_comment, truncation_marker, within_budget,
  serialize_for_prompt, table_lines,
}

-- neither a line feed nor a carriage return
unfoldable pub in_line : Char → Bool
in_line c = not (code c == 10 || code c == 13)

All-map_to :
    (p q : String → Bool) (xs : List String)
    → ((x : String) → p x ≡ true → q x ≡ true)
    → All (λ x. p x ≡ true) xs
    → All (λ x. q x ≡ true) xs
All-map_to p q [] h k = tt
All-map_to p q (x ∷ xs) h (k, ks) = (h x k, All-map_to p q xs h ks)

solid-in_line : (c : Char) → is_solid c ≡ true → in_line c ≡ true
unfolding in_line is_space
solid-in_line c h = ground arith

pub flat-in_line :
    (comment : String) → all_chars in_line (join " " (runs_of is_solid "" comment)) ≡ true
unfolding all_chars in_line
flat-in_line comment = all_chars-join in_line " " (runs_of is_solid "" comment) refl (
    All-map_to (all_chars is_solid) (all_chars in_line) (runs_of is_solid "" comment)
      (λ x. all_chars_mono is_solid in_line x solid-in_line) (runs_of-All is_solid "" comment refl))

-- A comment of the database enters a prompt as one line of at most 201 characters, whatever it holds.
pub flatten_comment-IsLine :
    (comment : String)
    → (all_chars in_line (flatten_comment comment) ≡ true)
      × (text_length (flatten_comment comment) ≤ 201)
unfolding flatten_comment text_length all_chars in_line
flatten_comment-IsLine comment =
    let flat = join " " (runs_of is_solid "" comment) in
    if-split (λ (t : String). (all_chars in_line t ≡ true) × (text_length t ≤ 201))
      (ltb max_comment_len (text_length flat)) _ _
      (λ long. (
        rw (all_chars-append in_line (take_text max_comment_len flat) "…") (
            and-intro (all_chars in_line (take_text max_comment_len flat)) (all_chars in_line "…")
              (all_chars-take_text in_line max_comment_len flat (flat-in_line comment)) refl),
        omega (
          arith,
          text_length-append (take_text max_comment_len flat) "…",
          text_length-take_text max_comment_len flat,
        ),
      ))
      (λ short. (flat-in_line comment, ground arith))

-- The description of a schema takes at most `max_chars` characters, and the marker where it was cut.
pub serialize_for_prompt-length :
    (s : DatabaseSchema) (max_chars : ℕ)
    → text_length (serialize_for_prompt s max_chars) ≤ max_chars + text_length truncation_marker
unfolding serialize_for_prompt within_budget
serialize_for_prompt-length s max_chars =
    let text = rstrip (join "\n" (table_lines s.tables)) in
    if-split (λ (t : String). text_length t ≤ max_chars + text_length truncation_marker)
      (ltb max_chars (text_length text)) _ _
      (λ long. omega (
        arith,
        text_length-append (rstrip (take_text max_chars text)) truncation_marker,
        text_length-rstrip (take_text max_chars text),
        text_length-take_text max_chars text,
      ))
      (λ short. omega (arith, ltb-false→le max_chars (text_length text) short))
