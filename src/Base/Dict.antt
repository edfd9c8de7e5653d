-- ===== src/Base/Dict.antt =====
-- Python's `dict` with text keys, as an association list in insertion order, and sets of texts as
-- lists in which no text comes twice.
use mathlib.Core.Path.{◌≡◌, refl, ap, ◌∙◌, sym}
use mathlib.Core.Bool.{true, ◌||◌}
use mathlib.Core.Logic.{inl, inr}
use build_your_own_text2sql.Base.Lists.{any-append, Member}
use mathlib.Core.Option.{Option, none, some}
use mathlib.Core.List.{List, [], ◌∷◌, ◌++◌}
use Prim.Native.String.{String}
use native.Mathlib.Omega.{arith}
use text.Mathlib.TextEquality.{eq_iff}
use build_your_own_text2sql.Base.Tests.{if◌then◌else◌, Bool-cases}
use build_your_own_text2sql.Base.Text.{◌=s=◌, contains}

module _ {ℓ} {V : Type ℓ} where
  -- `d.get(k)`
  unfoldable pub get : List (String × V) → String → Option V
  get [] k = none
  get ((j, v) ∷ d) k = if j =s= k then some v else get d k

  -- `d[k] = v`
  unfoldable pub put : List (String × V) → String → V → List (String × V)
  put [] k v = (k, v) ∷ []
  put ((j, w) ∷ d) k v = if j =s= k then (k, v) ∷ d else (j, w) ∷ put d k v

  -- `d.setdefault(k, v)`
  unfoldable pub set_default : List (String × V) → String → V → List (String × V)
  unfolding put get
  set_default d k v = elim (get d k) [ none ↦ put d k v | some w ↦ d ]

  pub get-put :
      (d : List (String × V)) (k j : String) (v : V)
      → get (put d k v) j ≡ (if k =s= j then some v else get d j)
  unfolding get put
  get-put [] k j v = refl
  get-put ((i, w) ∷ d) k j v = ground (arith, eq_iff k j, eq_iff i k, eq_iff i j, get-put d k j v)

-- `s.add(x)`
unfoldable pub add : List String → String → List String
add xs x = if contains xs x then xs else xs ++ x ∷ []

-- `s | t`
unfoldable pub union : List String → List String → List String
unfolding add
union xs [] = xs
union xs (y ∷ ys) = union (add xs y) ys

pub contains-append :
    (xs ys : List String) (s : String) → contains (xs ++ ys) s ≡ (contains xs s || contains ys s)
contains-append xs ys s = any-append (λ x. x =s= s) xs ys

contains_congr : (xs : List String) (x y : String) → x ≡ y → contains xs x ≡ contains xs y
contains_congr xs x y e = ap (contains xs) e

pub contains-add :
    (xs : List String) (x y : String) → contains (add xs x) y ≡ (contains xs y || (x =s= y))
unfolding add
contains-add xs x y = elim (Bool-cases (contains xs x)) [
  | inl old ↦ rw old (ground (arith, eq_iff x y, contains_congr xs x y))
  | inr new ↦ rw new (contains-append xs (x ∷ []) y ∙ ground arith)
]

pub contains-Member : (xs : List String) (x : String) → Member x xs → contains xs x ≡ true
contains-Member [] x m = absurd m
contains-Member (y ∷ ys) x (inl e) = ground (arith, eq_iff y x)
contains-Member (y ∷ ys) x (inr m) = ground (arith, contains-Member ys x m)

pub Member-contains : (xs : List String) (x : String) → contains xs x ≡ true → Member x xs
Member-contains [] x h = cc
Member-contains (y ∷ ys) x h = elim (Bool-cases (y =s= x)) [
  | inl same ↦ inl (sym ((eq_iff y x).0 same))
  | inr other ↦ inr (Member-contains ys x (ground arith))
]

pub contains-union :
    (xs ys : List String) (s : String) → contains (union xs ys) s ≡ (contains xs s || contains ys s)
unfolding union
contains-union xs [] s = ground arith
contains-union xs (y ∷ ys) s = ground (arith, contains-union (add xs y) ys s, contains-add xs y s)
