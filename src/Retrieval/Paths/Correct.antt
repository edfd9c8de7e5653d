-- ===== src/Retrieval/Paths/Correct.antt =====
-- The search `_shortest_path` of src/text_to_sql/retrieval/retriever.py ends, with a walk to the target
-- when there is one.
use Prim.Native.String.{String}
use text.Mathlib.TextEquality.{eq_iff}
use build_your_own_text2sql.Base.{
  ℕ, zero, suc, ◌+◌, ◌≤◌, true, false, ◌≡◌, refl, sym, ◌⊎◌, inl, inr, arith, List, [], ◌∷◌, ◌++◌,
  if◌then◌else◌, if-split, Option, some,
}
use build_your_own_text2sql.Base.Lists.{length, Member, Member-append_left, Member-append_right}
use build_your_own_text2sql.Base.Text.{◌=s=◌, sorted}
use build_your_own_text2sql.Base.Sorted.{Member-sorted_to, Member-sorted_of}
use build_your_own_text2sql.Base.Dict.{get}
use build_your_own_text2sql.Domain.Tables.{adjacent}
use build_your_own_text2sql.Retrieval.Paths.{
  Scan, found, going, scan, entries, search_loop, after_scan, shortest_path,
}
use build_your_own_text2sql.Retrieval.Paths.Tree.{known, Tree, root, Tree-Rebuilt, Rebuilt}
use build_your_own_text2sql.Domain.Walks.{Walk, arrive, leave}
use build_your_own_text2sql.Retrieval.Paths.Search.{unseen, Met, Scanned, scan-Scanned}

adjacent-cons :
    (key u : String) (nbrs : List String) (g : List (String × List String))
    → adjacent ((key, nbrs) ∷ g) u ≡ (if key =s= u then nbrs else adjacent g u)
unfolding adjacent get
adjacent-cons key u nbrs g = ground arith

none_adjacent : (v u : String) → Member v (adjacent [] u) → ⊥
unfolding adjacent get
none_adjacent v u m = m

Member-adjacent :
    (g : List (String × List String)) (u v : String)
    → Member v (adjacent g u)
    → Member v (entries g)
unfolding entries
Member-adjacent [] u v m = absurd (none_adjacent v u m)
Member-adjacent ((key, nbrs) ∷ g) u v m =
    if-split (λ (xs : List String). Member v xs → Member v (nbrs ++ entries g)) (key =s= u) nbrs
      (adjacent g u) (λ same here. Member-append_left v nbrs (entries g) here)
      (λ other there. Member-append_right v nbrs (entries g) (Member-adjacent g u v there))
      (rw (adjacent-cons key u nbrs g) at m)

unseen-le : (es : List String) (prev : List (String × String)) → unseen es prev ≤ length es
unfolding unseen
unseen-le [] prev = omega arith
unseen-le (e ∷ es) prev = ground (arith, unseen-le es prev)

module _ (g : List (String × List String)) (src dst : String) where
  -- What a search answers: a walk from the source to the target, or nothing when there is none.
  unfoldable pub Answers : Option (List String) → Type 0
  Answers r =
      (p : List String) × (r ≡ some p)
      × (Walk g dst src p ⊎ (p ≡ []) × ¬ ((q : List String) × Walk g dst src q))

  record Inv (prev : List (String × String)) (queue : List String) : Type 0 where
    met : Met g src dst (entries g) prev queue
    source : known prev src ≡ true
    closed :
        (u v : String)
        → known prev u ≡ true
        → Member v (adjacent g u)
        → Member u queue ⊎ (known prev v ≡ true)

  -- with an empty queue no walk leaves the tables met
  trapped :
      (prev : List (String × String)) (h : Inv prev []) (u : String) (p : List String)
      → known prev u ≡ true
      → Walk g dst u p
      → known prev dst ≡ true
  trapped prev h u p k arrive = k
  trapped prev h u _ k (leave {c} {p} edge w) = elim (h.closed u c k edge) [
    | inl waiting ↦ absurd waiting
    | inr there ↦ trapped prev h c p there w
  ]

  none_left : (prev : List (String × String)) → Inv prev [] → Answers (some [])
  unfolding Answers
  none_left prev h =
      ([], refl, inr (refl, λ (q, w). cc (trapped prev h src q h.source w, h.met.missing)))

  only : (v : String) → Member v (src ∷ []) → src ≡ v
  only v (inl e) = sym e
  only v (inr m) = absurd m

  -- one round: `node` left the queue, and its neighbours were scanned
  round-Inv :
      (prev : List (String × String)) (node : String) (queue : List String)
      (next : List (String × String)) (waiting : List String)
      → Inv prev (node ∷ queue)
      → Scanned g src dst (entries g) prev queue (sorted (adjacent g node)) (going next waiting)
      → Inv next waiting
  unfolding Scanned
  round-Inv prev node queue next waiting h (met, later, all) = record {
    met = met;
    source = later.kept src h.source;
    closed = λ u v k edge. elim (later.fresh u k) [
      | inr w ↦ inl w
      | inl old ↦ elim (h.closed u v old edge) [
        | inr there ↦ inr (later.kept v there)
        | inl (inr w) ↦ inl (later.waits u w)
        | inl (inl e) ↦ inr (all v (Member-sorted_to v (adjacent g node) (rw e at edge)))
      ]
    ];
  }

  dequeue :
      (prev : List (String × String)) (node : String) (queue : List String)
      → Inv prev (node ∷ queue)
      → Met g src dst (entries g) prev queue
  dequeue prev node queue h = record {
    tree = h.met.tree;
    missing = h.met.missing;
    queued = λ v w. h.met.queued v (inr w);
  }

  scanned :
      (prev : List (String × String)) (node : String) (queue : List String)
      → Inv prev (node ∷ queue)
      → Scanned g src dst
          (entries g)
          prev
          queue
          (sorted (adjacent g node))
          (scan dst node (sorted (adjacent g node)) prev queue)
  scanned prev node queue h =
      scan-Scanned g src dst (entries g) node (sorted (adjacent g node)) prev queue
        (dequeue prev node queue h) (h.met.queued node (inl refl))
        (λ v m.
          let edge = Member-sorted_of v (adjacent g node) m in
          (edge, Member-adjacent g node v edge))

  met-Answers :
      (next : List (String × String))
      (next_round : List (String × String) → List String → Option (List String))
      → Tree g src next × (known next dst ≡ true)
      → Answers (after_scan src dst next_round (found next))
  unfolding Answers after_scan Rebuilt
  met-Answers next next_round (tree, k) =
      let (p, e, w) = Tree-Rebuilt g src dst next tree dst (dst ∷ []) k arrive in (p, e, inl w)

  after-Answers :
      (prev : List (String × String)) (node : String) (queue : List String) (fuel : ℕ) (s : Scan)
      → Inv prev (node ∷ queue)
      → Scanned g src dst (entries g) prev queue (sorted (adjacent g node)) s
      → unseen (entries g) prev + length queue ≤ fuel
      → ((next : List (String × String)) (waiting : List String)
          → Inv next waiting
          → unseen (entries g) next + length waiting ≤ fuel
          → Answers (search_loop g src dst fuel next waiting))
      → Answers (after_scan src dst (search_loop g src dst fuel) s)
  unfolding after_scan Scanned
  after-Answers prev node queue fuel (found next) h r le again =
      met-Answers next (search_loop g src dst fuel) r
  after-Answers prev node queue fuel (going next waiting) h (met, later, all) le again =
      let work = later.work in
      again next waiting (round-Inv prev node queue next waiting h (met, later, all))
        (omega (arith, work))

  loop-Answers :
      (fuel : ℕ) (prev : List (String × String)) (queue : List String)
      → Inv prev queue
      → unseen (entries g) prev + length queue ≤ fuel
      → Answers (search_loop g src dst fuel prev queue)
  unfolding search_loop
  loop-Answers zero prev [] h le = none_left prev h
  loop-Answers (suc fuel) prev [] h le = none_left prev h
  loop-Answers zero prev (node ∷ queue) h le = absurd (omega arith)
  loop-Answers (suc fuel) prev (node ∷ queue) h le =
      after-Answers prev node queue fuel _ h (scanned prev node queue h) (omega arith)
        (loop-Answers fuel)

  start-Inv : (src =s= dst) ≡ false → Inv ((src, src) ∷ []) (src ∷ [])
  unfolding get
  start-Inv other = record {
    met = record {
      tree = root;
      missing = ground arith;
      queued = λ v w. ground (arith, eq_iff src v, only v w);
    };
    source = ground (arith, eq_iff src src);
    closed = λ u v k edge. inl (inl (ground (arith, eq_iff src u)));
  }

  -- The search ends, for every graph and every pair of tables: with a walk along the edges of the graph
  -- from the first table to the second, or, when there is no such walk, with the empty list.
  pub shortest_path-Answers : Answers (shortest_path g src dst)
  unfolding shortest_path Answers
  shortest_path-Answers =
      if-split Answers (src =s= dst) _ _
        (λ same. (src ∷ [], refl, inl (rw ((eq_iff src dst).0 same) arrive)))
        (λ other.
          loop-Answers (suc (length (entries g))) ((src, src) ∷ []) (src ∷ []) (start-Inv other)
            (omega (arith, unseen-le (entries g) ((src, src) ∷ []))))
