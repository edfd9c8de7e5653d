-- ===== src/Retrieval/Paths.antt =====
-- `_shortest_path` of src/text_to_sql/retrieval/retriever.py: a breadth-first search of the join graph.
pub mod Tree
pub mod Search
pub mod Correct
use build_your_own_text2sql.Base.{
  ℕ, zero, suc, ◌≡◌, refl, String, Option, none, some, List, [], ◌∷◌, ◌++◌, is_some, if◌then◌else◌,
}
use build_your_own_text2sql.Base.Lists.{length}
use build_your_own_text2sql.Base.Text.{◌=s=◌, sorted}
use build_your_own_text2sql.Base.Dict.{get, put}
use build_your_own_text2sql.Domain.Tables.{adjacent}

-- `while cur != src: cur = prev[cur]; path.append(cur)`, with the path kept reversed; `none` stands
-- for a missing key
unfoldable pub rebuild :
    List (String × String) → String → ℕ → String → List String → Option (List String)
unfolding get
rebuild prev src zero cur path = if cur =s= src then some path else none
rebuild prev src (suc fuel) cur path =
    let onward : Option (List String) = elim (get prev cur) [
      | none ↦ none
      | some up ↦ rebuild prev src fuel up (up ∷ path)
    ] in
    if cur =s= src then some path else onward

-- What the scan of a node's neighbours leaves: the target was met, or `prev` and the queue.
pub data Scan : Type 0 where
  found : List (String × String) → Scan
  going : List (String × String) → List String → Scan

-- `for nbr in sorted(…)`
unfoldable pub scan : String → String → List String → List (String × String) → List String → Scan
unfolding get put
scan dst node [] prev queue = going prev queue
scan dst node (nbr ∷ nbrs) prev queue =
    let seen = scan dst node nbrs prev queue in
    let onward = scan dst node nbrs (put prev nbr node) (queue ++ nbr ∷ []) in
    if is_some (get prev nbr)
    then seen
    else if nbr =s= dst
    then found (put prev nbr node)
    else onward

-- the target was met: the path to it; else `next` goes on
unfoldable pub after_scan :
    String
    → String
    → (List (String × String) → List String → Option (List String))
    → Scan
    → Option (List String)
unfolding rebuild
after_scan src dst next (found prev) = rebuild prev src (length prev) dst (dst ∷ [])
after_scan src dst next (going prev queue) = next prev queue

-- `while queue`; `none` stands for a search that exceeds its fuel
unfoldable pub search_loop :
    List (String × List String)
    → String
    → String
    → ℕ
    → List (String × String)
    → List String
    → Option (List String)
unfolding after_scan scan adjacent sorted
search_loop g src dst fuel prev [] = some []
search_loop g src dst zero prev (node ∷ queue) = none
search_loop g src dst (suc fuel) prev (node ∷ queue) =
    after_scan src dst (search_loop g src dst fuel)
      (scan dst node (sorted (adjacent g node)) prev queue)

-- the number of entries of all adjacency sets
unfoldable pub entries : List (String × List String) → List String
entries [] = []
entries ((key, nbrs) ∷ g) = nbrs ++ entries g

unfoldable pub shortest_path : List (String × List String) → String → String → Option (List String)
unfolding search_loop entries
shortest_path g src dst =
    if src =s= dst
    then some (src ∷ [])
    else search_loop g src dst (suc (length (entries g))) ((src, src) ∷ []) (src ∷ [])
