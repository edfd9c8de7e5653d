-- ===== src/Retrieval/Selected.antt =====
-- What src/text_to_sql/retrieval/retriever.py selects.
use Prim.Native.String.{String}
use build_your_own_text2sql.Base.{
  or_default, ℕ, ◌≤◌, ◌≡◌, refl, inl, inr, arith, List, [], ◌∷◌, ◌++◌, map, if-holds,
}
use build_your_own_text2sql.Base.Lists.{
  Member, All, length, take, Member-map, length-take, length-map,
}
use build_your_own_text2sql.Base.Text.{sorted}
use build_your_own_text2sql.Base.Dict.{union, contains-Member}
use build_your_own_text2sql.Domain.Tables.{DatabaseSchema, join_graph, table_key}
use build_your_own_text2sql.Domain.Models.{RetrievedObject}
use build_your_own_text2sql.Semantic.{SemanticLayer}
use build_your_own_text2sql.Retrieval.{
  seeds_of, or_list, ranked, final_scores, selected_keys, seeds_for, retrieve, table_names,
  sort_objects, object_in, retrieved, qualified,
}
use build_your_own_text2sql.Retrieval.Signals.{Scores, score_tables}
use build_your_own_text2sql.Retrieval.Paths.{shortest_path}
use build_your_own_text2sql.Domain.Walks.{Walk}
use build_your_own_text2sql.Retrieval.Closed.{
  KeepsMembers, path-Walk, bridges_among-path, nodes-Member, seed-Member, Subset,
}

Member-object_in :
    (v a : RetrievedObject) (xs : List RetrievedObject)
    → Member v (a ∷ xs)
    → Member v (object_in a xs)
unfolding object_in
Member-object_in v a [] m = m
Member-object_in v a (x ∷ xs) m =
    if-holds (Member v) _ {x = a ∷ x ∷ xs} {y = x ∷ object_in a xs} m (elim m [
      | inl e ↦ inr (Member-object_in v a xs (inl e))
      | inr (inl e) ↦ inl e
      | inr (inr rest) ↦ inr (Member-object_in v a xs (inr rest))
    ])

Member-sort_objects :
    (v : RetrievedObject) (xs : List RetrievedObject) → Member v xs → Member v (sort_objects xs)
unfolding sort_objects
Member-sort_objects v [] m = m
Member-sort_objects v (x ∷ xs) (inl e) = Member-object_in v x (sort_objects xs) (inl e)
Member-sort_objects v (x ∷ xs) (inr m) =
    Member-object_in v x (sort_objects xs) (inr (Member-sort_objects v xs m))

All-of : (P : String → Type 0) (p : List String) → ((v : String) → Member v p → P v) → All P p
All-of P [] h = tt
All-of P (v ∷ p) h = (h v (inl refl), All-of P p (λ u m. h u (inr m)))

or_list-length :
    (xs ys : List String) (n : ℕ) → length xs ≤ n → length ys ≤ n → length (or_list xs ys) ≤ n
unfolding or_list
or_list-length [] ys n h k = k
or_list-length (x ∷ xs) ys n h k = h

seeds_of-length :
    (top_k : ℕ) (schema : DatabaseSchema) (s : Scores) → length (seeds_of top_k schema s) ≤ top_k
unfolding seeds_of
seeds_of-length top_k schema s =
    or_list-length (map (λ (a : String × ℕ). a.0) (take top_k (ranked s.points)))
      (take top_k (sorted (map table_key schema.tables))) top_k
      (omega (
        arith,
        length-map (λ (a : String × ℕ). a.0) (take top_k (ranked s.points)),
        length-take top_k (ranked s.points),
      ))
      (omega (arith, length-take top_k (sorted (map table_key schema.tables))))

module _ (set_order : List String → List String) (keeps : KeepsMembers set_order)
    (semantic : SemanticLayer) (top_k : ℕ) (question : String) (schema : DatabaseSchema) where
  key-Member :
      (v : String)
      → Member v (selected_keys set_order schema (seeds_for semantic top_k question schema))
      → Member
          (qualified schema v)
          (table_names (retrieve set_order semantic top_k question schema))
  unfolding table_names retrieve retrieved
  key-Member v m =
      let s =
        final_scores set_order semantic top_k question schema
          (seeds_for semantic top_k question schema) in
      let keys = selected_keys set_order schema (seeds_for semantic top_k question schema) in
      Member-map (λ (o : RetrievedObject). o.table) (retrieved schema s v)
        (sort_objects (map (retrieved schema s) keys))
        (Member-sort_objects (retrieved schema s v) (map (retrieved schema s) keys)
          (Member-map (retrieved schema s) v keys m))

  -- There are at most `top_k` seeds, and the table of each seed is selected.
  pub retrieve-seed :
      (v : String)
      → Member v (seeds_for semantic top_k question schema)
      → (length (seeds_for semantic top_k question schema) ≤ top_k)
        × Member
            (qualified schema v)
            (table_names (retrieve set_order semantic top_k question schema))
  unfolding seeds_for
  retrieve-seed v m = (
    seeds_of-length top_k schema (score_tables semantic question schema),
    key-Member v
        (seed-Member set_order keeps schema (seeds_for semantic top_k question schema) v m),
  )

  -- When foreign keys lead from a seed to a later one, a walk of them does so over selected tables alone:
  -- the tables that a join of the two needs are not dropped.
  pub retrieve-connected :
      (before : List String) (s : String) (behind : List String) (t : String) (q : List String)
      → seeds_for semantic top_k question schema ≡ before ++ s ∷ behind
      → Member t behind
      → Walk (join_graph schema) t s q
      → (p : List String) × Walk (join_graph schema) t s p
        × All
            (λ k.
              Member
                (qualified schema k)
                (table_names (retrieve set_order semantic top_k question schema)))
            p
  unfolding Subset
  retrieve-connected before s behind t q e m w =
      let g = join_graph schema in
      let path = or_default [] (shortest_path g s t) in
      (
        path,
        path-Walk g s t q w,
        All-of
            (λ k.
              Member (qualified schema k)
                (table_names (retrieve set_order semantic top_k question schema)))
            path
            (λ k on_path. key-Member k (
              nodes-Member set_order keeps schema (seeds_for semantic top_k question schema) k (
                rw e (
                  bridges_among-path g s t (union [] (before ++ s ∷ behind)) before behind m k
                    (contains-Member path k on_path))))),
      )
