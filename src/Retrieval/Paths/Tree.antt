-- ===== src/Retrieval/Paths/Tree.antt =====
-- The map `prev` of the search of src/text_to_sql/retrieval/retriever.py is a tree of links that lead
-- back to the source, and following them rebuilds a walk.
use Prim.Native.String.{String}
use text.Mathlib.TextEquality.{eq_iff}
use build_your_own_text2sql.Base.{
  ℕ, zero, suc, Bool, true, false, ◌||◌, ◌≡◌, refl, sym, ap, ◌∙◌, inl, inr, arith, some, List, [],
  ◌∷◌, is_some, Bool-cases, Option-cases,
}
use build_your_own_text2sql.Base.Lists.{length, Member}
use build_your_own_text2sql.Base.Text.{◌=s=◌}
use build_your_own_text2sql.Base.Dict.{get, put, get-put}
use build_your_own_text2sql.Domain.Tables.{adjacent}
use build_your_own_text2sql.Domain.Walks.{Walk, leave}
use build_your_own_text2sql.Retrieval.Paths.{rebuild}

-- whether a table was met
abbrev pub known : List (String × String) → String → Bool
known prev v = is_some (get prev v)

pub known-put :
    (prev : List (String × String)) (nbr node v : String)
    → known (put prev nbr node) v ≡ ((nbr =s= v) || known prev v)
known-put prev nbr node v = ap is_some (get-put prev nbr v node) ∙ ground arith

length-put :
    (prev : List (String × String)) (nbr node : String)
    → known prev nbr ≡ false
    → length (put prev nbr node) ≡ suc (length prev)
unfolding get put
length-put [] nbr node h = refl
length-put ((j, w) ∷ prev) nbr node h = ground (arith, length-put prev nbr node)

module _ (g : List (String × List String)) (src : String) where
  -- Each link of `prev` but the source's own leads along an edge to a table met before.
  pub data Tree : List (String × String) → Type 0 where
    root : Tree ((src, src) ∷ [])
    grow :
        {prev : List (String × String)} (nbr node : String)
        → Tree prev
        → known prev nbr ≡ false
        → known prev node ≡ true
        → Member nbr (adjacent g node)
        → Tree (put prev nbr node)

module _ (src : String) where
  rebuild-put :
      (prev : List (String × String)) (nbr node : String) (fuel : ℕ) (x : String)
      (path q : List String)
      → known prev nbr ≡ false
      → rebuild prev src fuel x path ≡ some q
      → rebuild (put prev nbr node) src fuel x path ≡ some q
  unfolding rebuild
  rebuild-put prev nbr node zero x path q new h = h
  rebuild-put prev nbr node (suc fuel) x path q new h = elim (Bool-cases (x =s= src)) [
    | inl home ↦ ground arith
    | inr away ↦ elim (Option-cases (get prev x)) [
      | inl lost ↦ ground arith
      | inr (up, e) ↦ ground (
        arith,
        get-put prev nbr x node,
        eq_iff nbr x,
        ap (known prev),
        rebuild-put prev nbr node fuel up (up ∷ path) q new,
      )
    ]
  ]

  rebuild-suc :
      (prev : List (String × String)) (fuel : ℕ) (x : String) (path q : List String)
      → rebuild prev src fuel x path ≡ some q
      → rebuild prev src (suc fuel) x path ≡ some q
  unfolding rebuild
  rebuild-suc prev zero x path q h = ground arith
  rebuild-suc prev (suc fuel) x path q h = elim (Bool-cases (x =s= src)) [
    | inl home ↦ ground arith
    | inr away ↦ elim (Option-cases (get prev x)) [
      | inl lost ↦ ground arith
      | inr (up, e) ↦ ground (arith, rebuild-suc prev fuel up (up ∷ path) q)
    ]
  ]

module _ (g : List (String × List String)) (src dst : String) where
  -- what a rebuilt path is
  unfoldable pub Rebuilt : List (String × String) → String → List String → Type 0
  Rebuilt prev x path =
      (q : List String) × (rebuild prev src (length prev) x path ≡ some q) × Walk g dst src q

  home-Rebuilt :
      (prev : List (String × String)) (x : String) (path : List String)
      → (x =s= src) ≡ true
      → Walk g dst x path
      → Rebuilt prev x path
  unfolding Rebuilt rebuild
  home-Rebuilt [] x path h w = (path, ground arith, rw (sym ((eq_iff x src).0 h)) w)
  home-Rebuilt (p ∷ prev) x path h w = (path, ground arith, rw (sym ((eq_iff x src).0 h)) w)

  -- a link that does not start at the source leads on
  linked-Rebuilt :
      (prev : List (String × String)) (nbr node x : String) (path : List String)
      → known prev nbr ≡ false
      → (nbr =s= x) ≡ true
      → (x =s= src) ≡ false
      → Rebuilt prev node (node ∷ path)
      → Rebuilt (put prev nbr node) x path
  unfolding Rebuilt rebuild
  linked-Rebuilt prev nbr node x path new same away (q, e, w) = (
    q,
    ground (
      arith,
      length-put prev nbr node,
      get-put prev nbr x node,
      rebuild-put src prev nbr node (length prev) node (node ∷ path) q,
    ),
    w,
  )

  -- what could be rebuilt, still can
  kept-Rebuilt :
      (prev : List (String × String)) (nbr node x : String) (path : List String)
      → known prev nbr ≡ false
      → Rebuilt prev x path
      → Rebuilt (put prev nbr node) x path
  unfolding Rebuilt
  kept-Rebuilt prev nbr node x path new (q, e, w) = (
    q,
    ground (
      arith,
      length-put prev nbr node,
      rebuild-suc src prev (length prev) x path q,
      rebuild-put src prev nbr node (suc (length prev)) x path q,
    ),
    w,
  )

  root-source : (x : String) → known ((src, src) ∷ []) x ≡ true → (x =s= src) ≡ true
  unfolding get
  root-source x met = ground (arith, eq_iff src x, eq_iff x src)

  pub Tree-Rebuilt :
      (prev : List (String × String)) (t : Tree g src prev) (x : String) (path : List String)
      → known prev x ≡ true
      → Walk g dst x path
      → Rebuilt prev x path
  Tree-Rebuilt prev root x path met w = home-Rebuilt ((src, src) ∷ []) x path (root-source x met) w
  Tree-Rebuilt _ (grow {prev} nbr node t new old edge) x path met w =
      elim (Bool-cases (x =s= src)) [
        | inl home ↦ home-Rebuilt (put prev nbr node) x path home w
        | inr away ↦ elim (Bool-cases (nbr =s= x)) [
          | inl same ↦
              let here = (eq_iff nbr x).0 same in
              linked-Rebuilt prev nbr node x path new same away
                (Tree-Rebuilt prev t node (node ∷ path) old (leave (rw (sym here) edge) w))
          | inr other ↦
              kept-Rebuilt prev nbr node x path new
                (Tree-Rebuilt prev t x path (ground (arith, known-put prev nbr node x)) w)
        ]
      ]
