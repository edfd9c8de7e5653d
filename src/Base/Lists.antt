-- ===== src/Base/Lists.antt =====
-- Lists measured by native numbers, and the quantifiers of Python's `any` and `all`.
use Prim.Native.Nat.{ℕ, zero, suc, ◌+◌, min}
use mathlib.Core.Path.{◌≡◌, refl, ap}
use mathlib.Core.Logic.{◌⊎◌, inl, inr}
use mathlib.Core.Bool.{Bool, true, false, ◌&&◌, ◌||◌}
use mathlib.Core.Option.{Option, none, some}
use mathlib.Core.List.{List, [], ◌∷◌, ◌++◌, map}
use native.Mathlib.Omega.{arith}
use build_your_own_text2sql.Base.Tests.{if◌then◌else◌, if-split, if-holds}

module _ {ℓ} {A : Type ℓ} where
  abbrev pub length : List A → ℕ
  length [] = 0
  length (x ∷ xs) = suc (length xs)

  abbrev pub take : ℕ → List A → List A
  take zero xs = []
  take (suc n) [] = []
  take (suc n) (x ∷ xs) = x ∷ take n xs

  -- `[x for x in xs if p(x)]`
  abbrev pub filter : (A → Bool) → List A → List A
  filter p [] = []
  filter p (x ∷ xs) = if p x then x ∷ filter p xs else filter p xs

  abbrev pub any : (A → Bool) → List A → Bool
  any p [] = false
  any p (x ∷ xs) = p x || any p xs

  abbrev pub all : (A → Bool) → List A → Bool
  all p [] = true
  all p (x ∷ xs) = p x && all p xs

  -- The first element that passes the test, as `next(filter(…), None)`.
  abbrev pub find : (A → Bool) → List A → Option A
  find p [] = none
  find p (x ∷ xs) = if p x then some x else find p xs

  pub any-append : (p : A → Bool) (xs ys : List A) → any p (xs ++ ys) ≡ (any p xs || any p ys)
  any-append p [] ys = refl
  any-append p (x ∷ xs) ys = ground (arith, any-append p xs ys)

  pub length-append : (xs ys : List A) → length (xs ++ ys) ≡ length xs + length ys
  length-append [] ys = omega arith
  length-append (x ∷ xs) ys = omega (arith, length-append xs ys)

  pub length-take : (n : ℕ) (xs : List A) → length (take n xs) ≡ min n (length xs)
  length-take zero xs = omega arith
  length-take (suc n) [] = omega arith
  length-take (suc n) (x ∷ xs) = omega (arith, length-take n xs)

module _ {ℓ κ} {A : Type ℓ} where
  abbrev pub All : (A → Type κ) → List A → Type κ
  All P [] = Unit
  All P (x ∷ xs) = P x × All P xs

module _ {ℓ κ} {A : Type ℓ} {B : Type κ} where
  pub length-map : (f : A → B) (xs : List A) → length (map f xs) ≡ length xs
  length-map f [] = refl
  length-map f (x ∷ xs) = ap suc (length-map f xs)

module _ {A : Type 0} where
  abbrev pub Member : A → List A → Type 0
  Member a [] = ⊥
  Member a (x ∷ xs) = (a ≡ x) ⊎ Member a xs

  pub all-Member : (p : A → Bool) (xs : List A) (a : A) → all p xs ≡ true → Member a xs → p a ≡ true
  all-Member p [] a h m = absurd m
  all-Member p (x ∷ xs) a h (inl e) = ground arith
  all-Member p (x ∷ xs) a h (inr m) = all-Member p xs a (ground arith) m

  pub any-false-Member :
      (p : A → Bool) (xs : List A) (a : A) → any p xs ≡ false → Member a xs → p a ≡ false
  any-false-Member p [] a h m = absurd m
  any-false-Member p (x ∷ xs) a h (inl e) = ground arith
  any-false-Member p (x ∷ xs) a h (inr m) = any-false-Member p xs a (ground arith) m

  pub Member-filter :
      (p : A → Bool) (a : A) (xs : List A) → p a ≡ true → Member a xs → Member a (filter p xs)
  Member-filter p a [] h m = absurd m
  Member-filter p a (x ∷ xs) h (inl e) =
      if-split (Member a) (p x) (x ∷ filter p xs) (filter p xs) (λ _. inl e)
        (λ f. ground (arith, ap p e))
  Member-filter p a (x ∷ xs) h (inr m) =
      if-holds (Member a) (p x) {x = x ∷ filter p xs} {y = filter p xs}
        (inr (Member-filter p a xs h m)) (Member-filter p a xs h m)

  pub Member-append_left : (a : A) (xs ys : List A) → Member a xs → Member a (xs ++ ys)
  Member-append_left a [] ys m = absurd m
  Member-append_left a (x ∷ xs) ys (inl e) = inl e
  Member-append_left a (x ∷ xs) ys (inr m) = inr (Member-append_left a xs ys m)

  pub Member-append_right : (a : A) (xs ys : List A) → Member a ys → Member a (xs ++ ys)
  Member-append_right a [] ys m = m
  Member-append_right a (x ∷ xs) ys m = inr (Member-append_right a xs ys m)

module _ {A B : Type 0} where
  pub Member-map : (f : A → B) (a : A) (xs : List A) → Member a xs → Member (f a) (map f xs)
  Member-map f a [] m = absurd m
  Member-map f a (x ∷ xs) (inl e) = inl (ap f e)
  Member-map f a (x ∷ xs) (inr m) = inr (Member-map f a xs m)
