-- ===== src/Domain/Neighbors/Within.antt =====
-- `DatabaseSchema.neighbors` of src/text_to_sql/domain/schema_models.py finds what is within reach.
use Prim.Native.String.{String}
use text.Mathlib.TextEquality.{eq_iff}
use build_your_own_text2sql.Base.{
  ℕ, zero, suc, ◌+◌, ◌≤◌, Bool, true, false, not, ◌&&◌, ◌≡◌, ◌↔◌, refl, sym, ap, ◌⊎◌, inl, inr,
  arith, List, [], ◌∷◌, ◌++◌, Bool-cases, if◌then◌else◌, and-intro,
}
use build_your_own_text2sql.Base.Lists.{length, filter, Member, length-append}
use build_your_own_text2sql.Base.Text.{◌=s=◌, contains}
use build_your_own_text2sql.Base.Dict.{union, contains-union, contains-Member, Member-contains}
use build_your_own_text2sql.Domain.Tables.{DatabaseSchema, join_graph, adjacent, norm}
use build_your_own_text2sql.Domain.Walks.{Walk, arrive, leave, Walk-snoc}
use build_your_own_text2sql.Domain.Neighbors.{no_frontier, spread, without, rounds, neighbors}

contains-filter :
    (p : String → Bool) (xs : List String) (v : String)
    → contains (filter p xs) v ≡ (contains xs v && p v)
contains-filter p [] v = refl
contains-filter p (x ∷ xs) v = ground (arith, contains-filter p xs v, eq_iff x v, ap p)

Walk-length :
    (g : List (String × List String)) (b a : String) (p : List String) → Walk g b a p → 1 ≤ length p
Walk-length g b a _ arrive = omega arith
Walk-length g b a _ (leave edge w) = omega arith

module _ (g : List (String × List String)) where
  spread-old :
      (nxt nodes : List String) (v : String)
      → contains nxt v ≡ true
      → contains (spread g nxt nodes) v ≡ true
  unfolding spread
  spread-old nxt [] v h = h
  spread-old nxt (n ∷ nodes) v h =
      spread-old (union nxt (adjacent g n)) nodes v
        (ground (arith, contains-union nxt (adjacent g n) v))

  spread-edge :
      (nxt nodes : List String) (u v : String)
      → contains nodes u ≡ true
      → Member v (adjacent g u)
      → contains (spread g nxt nodes) v ≡ true
  unfolding spread
  spread-edge nxt [] u v h edge = cc
  spread-edge nxt (n ∷ nodes) u v h edge = elim (Bool-cases (n =s= u)) [
    | inl same ↦ spread-old (union nxt (adjacent g n)) nodes v (
        ground (
          arith,
          contains-union nxt (adjacent g n) v,
          contains-Member (adjacent g u) v edge,
          ap (λ (x : String). contains (adjacent g x) v) ((eq_iff n u).0 same),
        ))
    | inr other ↦ spread-edge (union nxt (adjacent g n)) nodes u v (ground arith) edge
  ]

  -- what the spread adds is next to one of the nodes
  spread-from :
      (nxt nodes : List String) (v : String)
      → contains (spread g nxt nodes) v ≡ true
      → (contains nxt v ≡ true)
        ⊎ ((u : String) × (contains nodes u ≡ true) × Member v (adjacent g u))
  unfolding spread
  spread-from nxt [] v h = inl h
  spread-from nxt (n ∷ nodes) v h = elim (spread-from (union nxt (adjacent g n)) nodes v h) [
    | inr later ↦ inr (later.0, ground (arith, later.1), later.2)
    | inl now ↦ elim (Bool-cases (contains nxt v)) [
      | inl old ↦ inl old
      | inr new ↦ inr (
        n,
        ground (arith, eq_iff n n),
        Member-contains (adjacent g n) v (ground (arith, contains-union nxt (adjacent g n) v)),
      )
    ]
  ]

  -- A node that was seen waits at the frontier, or its neighbours were seen.
  Closed : List String → List String → Type 0
  Closed frontier seen =
      (u v : String)
      → contains seen u ≡ true
      → Member v (adjacent g u)
      → (contains frontier u ≡ true) ⊎ (contains seen v ≡ true)

  next : List String → List String → List String
  next frontier seen = without (spread g [] frontier) seen

  -- the neighbours of the frontier are seen after a round
  next-edge :
      (frontier seen : List String) (u v : String)
      → contains frontier u ≡ true
      → Member v (adjacent g u)
      → contains (union seen (next frontier seen)) v ≡ true
  unfolding next without
  next-edge frontier seen u v h edge = ground (
    arith,
    contains-union seen (next frontier seen) v,
    contains-filter (λ (x : String). not (contains seen x)) (spread g [] frontier) v,
    spread-edge [] frontier u v,
  )

  next-Closed :
      (frontier seen : List String)
      → Closed frontier seen
      → Closed (next frontier seen) (union seen (next frontier seen))
  unfolding Closed
  next-Closed frontier seen h u v k edge = elim (Bool-cases (contains seen u)) [
    | inr new ↦ inl (ground (arith, contains-union seen (next frontier seen) u))
    | inl old ↦ elim (h u v old edge) [
      | inl waits ↦ inr (next-edge frontier seen u v waits edge)
      | inr there ↦ inr (ground (arith, contains-union seen (next frontier seen) v))
    ]
  ]

  -- the early exit changes nothing
  rounds-nil : (hops : ℕ) (seen : List String) → rounds g hops [] seen ≡ seen
  unfolding rounds spread without union
  rounds-nil zero seen = refl
  rounds-nil (suc hops) seen = refl

  skip_exit :
      (hops : ℕ) (nxt seen : List String)
      → (if no_frontier nxt then seen else rounds g hops nxt seen) ≡ rounds g hops nxt seen
  skip_exit hops [] seen = sym (rounds-nil hops seen)
  skip_exit hops (n ∷ nxt) seen = refl

  rounds-suc :
      (hops : ℕ) (frontier seen : List String)
      → rounds g (suc hops) frontier seen
        ≡ rounds g hops (next frontier seen) (union seen (next frontier seen))
  unfolding rounds next
  rounds-suc hops frontier seen =
      skip_exit hops (next frontier seen) (union seen (next frontier seen))

  rounds-old :
      (hops : ℕ) (frontier seen : List String) (v : String)
      → contains seen v ≡ true
      → contains (rounds g hops frontier seen) v ≡ true
  rounds-old zero frontier seen v h = unfold rounds in h
  rounds-old (suc hops) frontier seen v h =
      let nxt = next frontier seen in
      rw (rounds-suc hops frontier seen)
        (rounds-old hops nxt (union seen nxt) v (ground (arith, contains-union seen nxt v)))

  -- what the rounds reach from a node that was seen
  rounds-reach :
      (b : String) (hops : ℕ) (frontier seen : List String) (u : String) (p : List String)
      → Closed frontier seen
      → contains seen u ≡ true
      → Walk g b u p
      → length p ≤ suc hops
      → contains (rounds g hops frontier seen) b ≡ true
  unfolding Closed
  rounds-reach b hops frontier seen u _ closed k arrive le = rounds-old hops frontier seen b k
  rounds-reach b zero frontier seen u _ closed k (leave {c} {p} edge w) le =
      absurd (omega (arith, Walk-length g b c p w))
  rounds-reach b (suc hops) frontier seen u _ closed k (leave {c} {p} edge w) le =
      elim (closed u c k edge) [
        | inl waits ↦ rw (rounds-suc hops frontier seen) (
            rounds-reach b hops (next frontier seen) (union seen (next frontier seen)) c p
              (next-Closed frontier seen closed) (next-edge frontier seen u c waits edge) w
              (omega arith))
        | inr there ↦ rounds-reach b (suc hops) frontier seen c p closed there w (omega arith)
      ]

  -- The nodes that a list holds are at most `far` steps from `a`.
  Near : String → ℕ → List String → Type 0
  Near a far seen =
      (v : String)
      → contains seen v ≡ true
      → (p : List String) × Walk g v a p × (length p ≤ suc far)

  next-Near :
      (a : String) (far : ℕ) (frontier seen : List String)
      → Near a far seen
      → Near a far frontier
      → Near a (suc far) (union seen (next frontier seen))
  unfolding Near next without
  next-Near a far frontier seen h f v k = elim (Bool-cases (contains seen v)) [
    | inl old ↦ let (p, w, le) = h v old in (p, w, omega (arith, le))
    | inr new ↦
        let found : contains (spread g [] frontier) v ≡ true = ground (
          arith,
          contains-union seen (next frontier seen) v,
          contains-filter (λ (x : String). not (contains seen x)) (spread g [] frontier) v,
        ) in
        elim (spread-from [] frontier v found) [
          | inl nowhere ↦ cc
          | inr (u, at_front, edge) ↦
              let (p, w, le) = f u at_front in
              (p ++ v ∷ [], Walk-snoc g u v w edge, omega (arith, length-append p (v ∷ []), le))
        ]
  ]

  -- what is at the frontier was seen
  next_frontier-Near :
      (a : String) (far : ℕ) (frontier seen : List String)
      → Near a far seen
      → Near a far frontier
      → Near a (suc far) (next frontier seen)
  unfolding Near
  next_frontier-Near a far frontier seen h f v k =
      next-Near a far frontier seen h f v
        (ground (arith, contains-union seen (next frontier seen) v))

  rounds-Near :
      (a : String) (total hops far : ℕ) (frontier seen : List String)
      → Near a far seen
      → Near a far frontier
      → hops + far ≤ total
      → Near a total (rounds g hops frontier seen)
  unfolding Near
  rounds-Near a total zero far frontier seen h f le v k =
      let (p, w, short) = h v (unfold rounds in k) in (p, w, omega (arith, short))
  rounds-Near a total (suc hops) far frontier seen h f le v k =
      rounds-Near a total hops (suc far) (next frontier seen) (union seen (next frontier seen))
        (next-Near a far frontier seen h f) (next_frontier-Near a far frontier seen h f)
        (omega arith) v (rw (rounds-suc hops frontier seen) at k)

  only-Near : (a : String) → Near a 0 (a ∷ [])
  unfolding Near
  only-Near a v k = (a ∷ [], rw (sym ((eq_iff a v).0 (ground arith))) arrive, omega arith)

  only-Closed : (a : String) → Closed (a ∷ []) (a ∷ [])
  unfolding Closed
  only-Closed a u v k edge = inl k

module _ (schema : DatabaseSchema) (key : String) (hops : ℕ) where
  contains-neighbors :
      (v : String)
      → contains (neighbors schema key hops) v ≡ (
          contains (rounds (join_graph schema) hops (norm key ∷ []) (norm key ∷ [])) v
          && not (v =s= norm key))
  unfolding neighbors
  contains-neighbors v =
      contains-filter (λ (x : String). not (x =s= norm key))
        (rounds (join_graph schema) hops (norm key ∷ []) (norm key ∷ [])) v

  -- `neighbors` names exactly the other tables to which at most `hops` foreign keys lead, followed in either
  -- direction.
  pub neighbors_iff :
      (v : String)
      → (contains (neighbors schema key hops) v ≡ true)
        ↔ ((v =s= norm key) ≡ false)
          × (p : List String) × Walk (join_graph schema) v (norm key) p
          × (length p ≤ suc hops)
  unfolding Near
  neighbors_iff v =
      let g = join_graph schema in
      let start = norm key ∷ [] in
      let start_seen : contains start (norm key) ≡ true =
        ground (arith, eq_iff (norm key) (norm key)) in
      (
        λ found.
            let (p, w, le) =
              rounds-Near g (norm key) hops hops 0 start start (only-Near g (norm key))
                (only-Near g (norm key)) (omega arith) v (ground (arith, contains-neighbors v)) in
            (ground (arith, contains-neighbors v), p, w, le),
        λ (other, p, w, le). rw (contains-neighbors v) (
            and-intro (contains (rounds g hops start start) v) (not (v =s= norm key))
              (rounds-reach g v hops start start (norm key) p (only-Closed g (norm key)) start_seen
                w le)
              (ap not other)),
      )
