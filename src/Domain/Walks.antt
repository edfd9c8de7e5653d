-- ===== src/Domain/Walks.antt =====
-- Walks of the join graph of src/text_to_sql/domain/schema_models.py.
use build_your_own_text2sql.Base.{String, List, [], ◌∷◌, ◌++◌}
use build_your_own_text2sql.Base.Lists.{Member}
use build_your_own_text2sql.Domain.Tables.{adjacent}

-- The walks to `b`, by the tables they visit.
pub data Walk (g : List (String × List String)) (b : String) : String → List String → Type 0 where
  arrive : Walk g b b (b ∷ [])
  leave :
      {a c : String} {p : List String} → Member c (adjacent g a) → Walk g b c p → Walk g b a (a ∷ p)

-- a walk goes on along an edge
pub Walk-snoc :
    (g : List (String × List String)) (b c : String) {a : String} {p : List String}
    → Walk g b a p
    → Member c (adjacent g b)
    → Walk g c a (p ++ c ∷ [])
Walk-snoc g b c arrive edge = leave edge arrive
Walk-snoc g b c (leave first w) edge = leave first (Walk-snoc g b c w edge)
