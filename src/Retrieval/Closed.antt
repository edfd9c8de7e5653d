-- ===== src/Retrieval/Closed.antt =====
-- The bridges of src/text_to_sql/retrieval/retriever.py contain a walk between each two seeds that foreign
-- keys connect.
use Prim.Native.String.{String}
use build_your_own_text2sql.Base.{
  or_default, true, not, ◌≡◌, ap, inl, inr, arith, List, [], ◌∷◌, ◌++◌, Bool-cases,
}
use build_your_own_text2sql.Base.Lists.{
  Member, filter, Member-filter, Member-append_left, Member-append_right,
}
use build_your_own_text2sql.Base.Text.{contains}
use build_your_own_text2sql.Base.Dict.{union, contains-union, Member-contains}
use build_your_own_text2sql.Base.Sorted.{Member-dedupe}
use build_your_own_text2sql.Domain.Tables.{DatabaseSchema, join_graph}
use build_your_own_text2sql.Retrieval.{bridges_from, bridges_among, add_bridges, selected_keys}
use build_your_own_text2sql.Retrieval.Paths.{shortest_path}
use build_your_own_text2sql.Domain.Walks.{Walk}
use build_your_own_text2sql.Retrieval.Paths.Correct.{shortest_path-Answers, Answers}

-- every text of the one is in the other
unfoldable pub Subset : List String → List String → Type 0
Subset xs ys = (v : String) → contains xs v ≡ true → contains ys v ≡ true

module _ (g : List (String × List String)) where
  bridges_from-Subset :
      (src : String) (nodes dsts : List String) → Subset nodes (bridges_from g src nodes dsts)
  unfolding bridges_from Subset
  bridges_from-Subset src nodes [] v h = h
  bridges_from-Subset src nodes (dst ∷ dsts) v h =
      let path = or_default [] (shortest_path g src dst) in
      bridges_from-Subset src (union nodes path) dsts v
        (ground (arith, contains-union nodes path v))

  bridges_from-path :
      (src dst : String) (nodes dsts : List String)
      → Member dst dsts
      → Subset (or_default [] (shortest_path g src dst)) (bridges_from g src nodes dsts)
  unfolding bridges_from Subset
  bridges_from-path src dst nodes [] m v h = absurd m
  bridges_from-path src dst nodes (d ∷ dsts) (inl e) v h =
      let path = or_default [] (shortest_path g src d) in
      bridges_from-Subset src (union nodes path) dsts v (
        ground (
          arith,
          contains-union nodes path v,
          ap (λ (x : String). contains (or_default [] (shortest_path g src x)) v) e,
        ))
  bridges_from-path src dst nodes (d ∷ dsts) (inr m) v h =
      bridges_from-path src dst (union nodes (or_default [] (shortest_path g src d))) dsts m v h

  bridges_among-Subset : (nodes seeds : List String) → Subset nodes (bridges_among g nodes seeds)
  unfolding bridges_among Subset
  bridges_among-Subset nodes [] v h = h
  bridges_among-Subset nodes (src ∷ rest) v h =
      bridges_among-Subset (bridges_from g src nodes rest) rest v
        (bridges_from-Subset src nodes rest v h)

  pub bridges_among-path :
      (s t : String) (nodes before behind : List String)
      → Member t behind
      → Subset (or_default [] (shortest_path g s t)) (bridges_among g nodes (before ++ s ∷ behind))
  unfolding bridges_among Subset
  bridges_among-path s t nodes [] behind m v h =
      bridges_among-Subset (bridges_from g s nodes behind) behind v
        (bridges_from-path s t nodes behind m v h)
  bridges_among-path s t nodes (b ∷ before) behind m v h =
      bridges_among-path s t (bridges_from g b nodes (before ++ s ∷ behind)) before behind m v h

  -- where there is a walk at all, the search has one
  pub path-Walk :
      (s t : String) (q : List String)
      → Walk g t s q
      → Walk g t s (or_default [] (shortest_path g s t))
  unfolding Answers
  path-Walk s t q w =
      let (p, e, answer) = shortest_path-Answers g s t in
      elim answer [ inl walk ↦ rw e walk | inr none_there ↦ absurd (none_there.1 (q, w)) ]

-- The order of a set is that of its elements: it drops none.
abbrev pub KeepsMembers : (List String → List String) → Type 0
KeepsMembers set_order = (v : String) (xs : List String) → Member v xs → Member v (set_order xs)

module _ (set_order : List String → List String) (keeps : KeepsMembers set_order) where
  pub nodes-Member :
      (schema : DatabaseSchema) (seeds : List String) (v : String)
      → contains (bridges_among (join_graph schema) (union [] seeds) seeds) v ≡ true
      → Member v (selected_keys set_order schema seeds)
  unfolding selected_keys add_bridges
  nodes-Member schema seeds v h =
      let bridged =
        filter (λ key. not (contains seeds key))
          (bridges_among (join_graph schema) (union [] seeds) seeds) in
      Member-dedupe v (seeds ++ set_order bridged) (elim (Bool-cases (contains seeds v)) [
        | inl seed ↦ Member-append_left v seeds (set_order bridged) (Member-contains seeds v seed)
        | inr other ↦ Member-append_right v seeds (set_order bridged) (
            keeps v bridged (
              Member-filter (λ key. not (contains seeds key)) v
                (bridges_among (join_graph schema) (union [] seeds) seeds) (ground arith)
                (Member-contains (bridges_among (join_graph schema) (union [] seeds) seeds) v h)))
      ])

  pub seed-Member :
      (schema : DatabaseSchema) (seeds : List String) (v : String)
      → Member v seeds
      → Member v (selected_keys set_order schema seeds)
  unfolding selected_keys
  seed-Member schema seeds v m =
      Member-dedupe v (seeds ++ set_order (add_bridges schema seeds))
        (Member-append_left v seeds (set_order (add_bridges schema seeds)) m)
