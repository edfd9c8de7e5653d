-- ===== src/Retrieval.antt =====
-- Retrieval of the tables that a question is about: src/text_to_sql/retrieval/retriever.py. `retrieve` in
-- its steps 4 and 5; the signals are in Signals, the search of the join graph in Paths. `set_order` is the
-- order in which Python walks a set.
pub mod Paths
pub mod Tokens
pub mod Signals
pub mod Closed
pub mod Selected
use build_your_own_text2sql.Base.{
  or_default, ℕ, String, Bool, true, false, not, ◌&&◌, ◌||◌, Option, none, some, List, [], ◌∷◌,
  ◌++◌, map, is_some, ltb, ◌==◌, if◌then◌else◌,
}
use build_your_own_text2sql.Base.Lists.{take, filter}
use build_your_own_text2sql.Base.Text.{contains, join, sorted, dedupe, text_le}
use build_your_own_text2sql.Base.Dict.{get, union}
use build_your_own_text2sql.Domain.Tables.{
  DatabaseSchema, table, table_key, qualified_name, join_graph, subset,
}
use build_your_own_text2sql.Domain.Models.{RetrievedObject}
use build_your_own_text2sql.Semantic.{SemanticLayer}
use build_your_own_text2sql.Retrieval.Paths.{shortest_path}
use build_your_own_text2sql.Retrieval.Signals.{Scores, add_points, score_tables}

abbrev bridge_score : ℕ
bridge_score = 5

-- the order of `sorted(scores.items(), key=lambda kv: (-kv[1], kv[0]))`
ranks_before : String × ℕ → String × ℕ → Bool
ranks_before a b = ltb b.1 a.1 || (a.1 == b.1) && text_le a.0 b.0

rank_in : String × ℕ → List (String × ℕ) → List (String × ℕ)
unfolding ranks_before
rank_in a [] = a ∷ []
rank_in a (b ∷ bs) = if ranks_before a b then a ∷ b ∷ bs else b ∷ rank_in a bs

unfoldable pub ranked : List (String × ℕ) → List (String × ℕ)
unfolding rank_in
ranked [] = []
ranked (a ∷ as') = rank_in a (ranked as')

-- `_qualified`
unfoldable pub qualified : DatabaseSchema → String → String
unfolding table qualified_name
qualified schema key = elim (table schema key) [ none ↦ key | some t ↦ qualified_name t ]

-- the order of `selected.sort(key=lambda o: (-o.score, o.table))`
object_before : RetrievedObject → RetrievedObject → Bool
object_before a b = ltb b.score a.score || (a.score == b.score) && text_le a.table b.table

unfoldable pub object_in : RetrievedObject → List RetrievedObject → List RetrievedObject
unfolding object_before
object_in a [] = a ∷ []
object_in a (b ∷ bs) = if object_before a b then a ∷ b ∷ bs else b ∷ object_in a bs

unfoldable pub sort_objects : List RetrievedObject → List RetrievedObject
unfolding object_in
sort_objects [] = []
sort_objects (a ∷ rest) = object_in a (sort_objects rest)

-- `_add_bridges`: the inner loop, and the outer one
unfoldable pub bridges_from :
    List (String × List String) → String → List String → List String → List String
unfolding union shortest_path
bridges_from g src nodes [] = nodes
bridges_from g src nodes (dst ∷ dsts) =
    bridges_from g src (union nodes (or_default [] (shortest_path g src dst))) dsts

unfoldable pub bridges_among : List (String × List String) → List String → List String → List String
unfolding bridges_from
bridges_among g nodes [] = nodes
bridges_among g nodes (src ∷ rest) = bridges_among g (bridges_from g src nodes rest) rest

unfoldable pub add_bridges : DatabaseSchema → List String → List String
unfolding bridges_among join_graph union
add_bridges schema seeds =
    filter (λ key. not (contains seeds key))
      (bridges_among (join_graph schema) (union [] seeds) seeds)

-- step 4: the seeds and the scores, and the fallback where nothing scored
fallback_scores : Scores → List String → Scores
unfolding add_points
fallback_scores s [] = s
fallback_scores s (key ∷ keys) =
    fallback_scores (add_points s key 1 "fallback: no strong signal, included by default") keys

-- `xs or ys`
unfoldable pub or_list : List String → List String → List String
or_list [] ys = ys
or_list (x ∷ xs) ys = x ∷ xs

unfoldable pub seeds_of : ℕ → DatabaseSchema → Scores → List String
unfolding or_list ranked sorted table_key
seeds_of top_k schema s =
    or_list (map (λ (a : String × ℕ). a.0) (take top_k (ranked s.points)))
      (take top_k (sorted (map table_key schema.tables)))

seed_scores : ℕ → Scores → List String → Scores
unfolding ranked fallback_scores
seed_scores top_k s seeds = elim (take top_k (ranked s.points)) [
  | [] ↦ fallback_scores s seeds
  | _ ∷ _ ↦ s
]

-- step 5: a score for each bridge
bridge_scores : Scores → List String → Scores
unfolding add_points get
bridge_scores s [] = s
bridge_scores s (key ∷ keys) =
    let more = add_points s key bridge_score "join bridge required to connect selected tables" in
    bridge_scores (if is_some (get s.points key) then s else more) keys

pub record RetrievalResult : Type 0 where
  pub selected : List RetrievedObject
  pub schema_subset : DatabaseSchema

unfoldable pub table_names : RetrievalResult → List String
table_names r = map (λ (o : RetrievedObject). o.table) r.selected

unfoldable pub retrieved : DatabaseSchema → Scores → String → RetrievedObject
unfolding qualified get join
retrieved schema s key = record {
  table = qualified schema key;
  score = or_default bridge_score (get s.points key);
  reason = join "; " (or_default ("included" ∷ []) (get s.reasons key));
}

-- `list(dict.fromkeys(seeds + list(bridged)))`
unfoldable pub selected_keys :
    (List String → List String) → DatabaseSchema → List String → List String
unfolding dedupe add_bridges
selected_keys set_order schema seeds = dedupe (seeds ++ set_order (add_bridges schema seeds))

unfoldable pub seeds_for : SemanticLayer → ℕ → String → DatabaseSchema → List String
unfolding seeds_of score_tables
seeds_for semantic top_k question schema =
    seeds_of top_k schema (score_tables semantic question schema)

module _ (set_order : List String → List String) (semantic : SemanticLayer) (top_k : ℕ) where
  unfoldable pub final_scores : String → DatabaseSchema → List String → Scores
  unfolding seed_scores bridge_scores score_tables add_bridges
  final_scores question schema seeds =
      bridge_scores (seed_scores top_k (score_tables semantic question schema) seeds)
        (set_order (add_bridges schema seeds))

  unfoldable pub retrieve : String → DatabaseSchema → RetrievalResult
  unfolding seeds_for selected_keys final_scores retrieved sort_objects subset qualified
  retrieve question schema =
      let seeds = seeds_for semantic top_k question schema in
      let keys = selected_keys set_order schema seeds in
      let s = final_scores question schema seeds in
      record {
        selected = sort_objects (map (retrieved schema s) keys);
        schema_subset = subset schema (map (qualified schema) keys);
      }
