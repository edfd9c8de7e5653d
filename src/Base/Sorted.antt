-- ===== src/Base/Sorted.antt =====
-- Sorting texts and dropping repeated ones keeps every text.
use Prim.Native.String.{String}
use mathlib.Core.Logic.{inl, inr}
use mathlib.Core.List.{List, [], ◌∷◌}
use build_your_own_text2sql.Base.Tests.{if-split, Bool-cases}
use mathlib.Core.Path.{◌≡◌, refl, sym}
use mathlib.Core.Bool.{false}
use native.Mathlib.Omega.{arith}
use text.Mathlib.TextEquality.{eq_iff}
use build_your_own_text2sql.Base.Lists.{Member}
use build_your_own_text2sql.Base.Text.{
  ◌=s=◌, contains, sorted, insert_sorted, text_le, dedupe, dedupe_from,
}

Member-insert_to :
    (v s : String) (xs : List String) → Member v (s ∷ xs) → Member v (insert_sorted s xs)
unfolding insert_sorted
Member-insert_to v s [] m = m
Member-insert_to v s (x ∷ xs) m =
    if-split (Member v) (text_le s x) _ _ (λ le. m)
      (λ gt. elim m [
        | inl e ↦ inr (Member-insert_to v s xs (inl e))
        | inr (inl e) ↦ inl e
        | inr (inr rest) ↦ inr (Member-insert_to v s xs (inr rest))
      ])

Member-insert_of :
    (v s : String) (xs : List String) → Member v (insert_sorted s xs) → Member v (s ∷ xs)
unfolding insert_sorted
Member-insert_of v s [] m = m
Member-insert_of v s (x ∷ xs) m =
    if-split (λ (ys : List String). Member v ys → Member v (s ∷ x ∷ xs)) (text_le s x) (s ∷ x ∷ xs)
      (x ∷ insert_sorted s xs) (λ le m. m)
      (λ gt m. elim m [
        | inl e ↦ inr (inl e)
        | inr rest ↦ elim (Member-insert_of v s xs rest) [
          | inl e ↦ inl e
          | inr more ↦ inr (inr more)
        ]
      ])
      m

pub Member-sorted_to : (v : String) (xs : List String) → Member v xs → Member v (sorted xs)
unfolding sorted
Member-sorted_to v [] m = m
Member-sorted_to v (x ∷ xs) (inl e) = Member-insert_to v x (sorted xs) (inl e)
Member-sorted_to v (x ∷ xs) (inr m) =
    Member-insert_to v x (sorted xs) (inr (Member-sorted_to v xs m))

pub Member-sorted_of : (v : String) (xs : List String) → Member v (sorted xs) → Member v xs
unfolding sorted
Member-sorted_of v [] m = m
Member-sorted_of v (x ∷ xs) m = elim (Member-insert_of v x (sorted xs) m) [
  | inl e ↦ inl e
  | inr rest ↦ inr (Member-sorted_of v xs rest)
]

Member-dedupe_from :
    (v : String) (seen xs : List String)
    → contains seen v ≡ false
    → Member v xs
    → Member v (dedupe_from seen xs)
unfolding dedupe_from
Member-dedupe_from v seen (x ∷ xs) new m =
    if-split (Member v) (contains seen x) (dedupe_from seen xs) (x ∷ dedupe_from (x ∷ seen) xs)
      (λ old. elim m [ inl e ↦ cc | inr rest ↦ Member-dedupe_from v seen xs new rest ])
      (λ fresh. elim (Bool-cases (x =s= v)) [
        | inl same ↦ inl (sym ((eq_iff x v).0 same))
        | inr other ↦ elim m [
          | inl e ↦ absurd (ground (arith, eq_iff x v))
          | inr rest ↦ inr (Member-dedupe_from v (x ∷ seen) xs (ground arith) rest)
        ]
      ])
Member-dedupe_from v seen [] new m = absurd m

pub Member-dedupe : (v : String) (xs : List String) → Member v xs → Member v (dedupe xs)
unfolding dedupe
Member-dedupe v xs m = Member-dedupe_from v [] xs refl m
