-- ===== src/Domain/Neighbors.antt =====
-- `DatabaseSchema.neighbors` of src/text_to_sql/domain/schema_models.py.
pub mod Within
use build_your_own_text2sql.Base.{
  ℕ, zero, suc, String, Bool, true, false, not, List, [], ◌∷◌, if◌then◌else◌, ◌≡◌, refl,
}
use build_your_own_text2sql.Base.Lists.{filter}
use build_your_own_text2sql.Base.Text.{◌=s=◌, contains}
use build_your_own_text2sql.Base.Dict.{union}
use build_your_own_text2sql.Domain.Tables.{DatabaseSchema, join_graph, adjacent, norm}

-- `for node in frontier: nxt |= graph.get(node, set())`
unfoldable pub spread : List (String × List String) → List String → List String → List String
unfolding union adjacent
spread g nxt [] = nxt
spread g nxt (node ∷ nodes) = spread g (union nxt (adjacent g node)) nodes

-- `nxt -= seen`
unfoldable pub without : List String → List String → List String
without nxt seen = filter (λ v. not (contains seen v)) nxt

-- `not frontier`
abbrev pub no_frontier : List String → Bool
no_frontier [] = true
no_frontier (x ∷ xs) = false

-- the rounds, up to `hops` of them
unfoldable pub rounds : List (String × List String) → ℕ → List String → List String → List String
unfolding spread without union
rounds g zero frontier seen = seen
rounds g (suc hops) frontier seen =
    let nxt = without (spread g [] frontier) seen in
    let more = rounds g hops nxt (union seen nxt) in
    if no_frontier nxt then union seen nxt else more

unfoldable pub neighbors : DatabaseSchema → String → ℕ → List String
unfolding rounds join_graph norm
neighbors schema key hops =
    filter (λ v. not (v =s= norm key))
      (rounds (join_graph schema) hops (norm key ∷ []) (norm key ∷ []))
