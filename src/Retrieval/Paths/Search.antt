-- ===== src/Retrieval/Paths/Search.antt =====
-- What the scan of a table's neighbours keeps, in `_shortest_path` of
-- src/text_to_sql/retrieval/retriever.py.
use Prim.Native.String.{String}
use text.Mathlib.TextEquality.{eq_iff}
use build_your_own_text2sql.Base.{
  ℕ, suc, ◌+◌, ◌≤◌, true, false, ◌≡◌, refl, sym, ap, ◌⊎◌, inl, inr, arith, List, [], ◌∷◌, ◌++◌,
  Bool-cases, if◌then◌else◌, if-split,
}
use build_your_own_text2sql.Base.Lists.{
  length, Member, length-append, Member-append_left, Member-append_right,
}
use build_your_own_text2sql.Base.Text.{◌=s=◌}
use build_your_own_text2sql.Base.Dict.{put}
use build_your_own_text2sql.Domain.Tables.{adjacent}
use build_your_own_text2sql.Retrieval.Paths.{Scan, found, going, scan}
use build_your_own_text2sql.Retrieval.Paths.Tree.{known, known-put, Tree, grow}

-- the entries of a list that were not met
unfoldable pub unseen : List String → List (String × String) → ℕ
unseen [] prev = 0
unseen (e ∷ es) prev = (if known prev e then 0 else 1) + unseen es prev

unseen-put-le :
    (es : List String) (prev : List (String × String)) (nbr node : String)
    → unseen es (put prev nbr node) ≤ unseen es prev
unfolding unseen
unseen-put-le [] prev nbr node = omega arith
unseen-put-le (e ∷ es) prev nbr node =
    ground (arith, known-put prev nbr node e, unseen-put-le es prev nbr node)

unseen-put :
    (es : List String) (prev : List (String × String)) (nbr node : String)
    → known prev nbr ≡ false
    → Member nbr es
    → suc (unseen es (put prev nbr node)) ≤ unseen es prev
unfolding unseen
unseen-put [] prev nbr node new m = absurd m
unseen-put (e ∷ es) prev nbr node new (inl same) = ground (
  arith,
  known-put prev nbr node e,
  unseen-put-le es prev nbr node,
  eq_iff nbr e,
  ap (known prev) same,
)
unseen-put (e ∷ es) prev nbr node new (inr m) =
    ground (arith, known-put prev nbr node e, unseen-put es prev nbr node new m)

Member-singleton : (v x : String) → Member v (x ∷ []) → v ≡ x
Member-singleton v x (inl e) = e
Member-singleton v x (inr m) = absurd m

Member-append_cases :
    (v x : String) (xs : List String) → Member v (xs ++ x ∷ []) → Member v xs ⊎ (v ≡ x)
Member-append_cases v x [] m = inr (Member-singleton v x m)
Member-append_cases v x (y ∷ ys) (inl e) = inl (inl e)
Member-append_cases v x (y ∷ ys) (inr m) = elim (Member-append_cases v x ys m) [
  | inl old ↦ inl (inr old)
  | inr new ↦ inr new
]

module _ (g : List (String × List String)) (src dst : String) (es : List String) where
  -- The tables met hang together, lead back to the source, and are without the target; what waits was met.
  pub record Met (prev : List (String × String)) (queue : List String) : Type 0 where
    pub tree : Tree g src prev
    pub missing : known prev dst ≡ false
    pub queued : (v : String) → Member v queue → known prev v ≡ true

  -- From one state to a later one nothing is forgotten, what is new waits, and the work does not grow.
  pub record Later (prev : List (String × String)) (queue : List String)
      (next : List (String × String)) (waiting : List String) : Type 0 where
    pub kept : (v : String) → known prev v ≡ true → known next v ≡ true
    pub waits : (v : String) → Member v queue → Member v waiting
    pub fresh : (v : String) → known next v ≡ true → (known prev v ≡ true) ⊎ Member v waiting
    pub work : unseen es next + length waiting ≤ unseen es prev + length queue

  Later-trans :
      (p q r : List (String × String)) (a b c : List String)
      → Later p a q b
      → Later q b r c
      → Later p a r c
  Later-trans p q r a b c h k = record {
    kept = λ v m. k.kept v (h.kept v m);
    waits = λ v m. k.waits v (h.waits v m);
    fresh = λ v m. elim (k.fresh v m) [
      | inr w ↦ inr w
      | inl old ↦ elim (h.fresh v old) [ inl older ↦ inl older | inr w ↦ inr (k.waits v w) ]
    ];
    work = omega (arith, h.work, k.work);
  }

  Later-here : (prev : List (String × String)) (queue : List String) → Later prev queue prev queue
  Later-here prev queue = record {
    kept = λ v m. m;
    waits = λ v m. m;
    fresh = λ v m. inl m;
    work = omega arith;
  }

  -- one neighbour that was not met
  meet-Later :
      (prev : List (String × String)) (queue : List String) (nbr node : String)
      → known prev nbr ≡ false
      → Member nbr es
      → Later prev queue (put prev nbr node) (queue ++ nbr ∷ [])
  meet-Later prev queue nbr node new m = record {
    kept = λ v k. ground (arith, known-put prev nbr node v);
    waits = λ v w. Member-append_left v queue (nbr ∷ []) w;
    fresh = λ v k. elim (Bool-cases (nbr =s= v)) [
      | inl same ↦ inr (Member-append_right v queue (nbr ∷ []) (inl (sym ((eq_iff nbr v).0 same))))
      | inr other ↦ inl (ground (arith, known-put prev nbr node v))
    ];
    work = omega (arith, unseen-put es prev nbr node new m, length-append queue (nbr ∷ []));
  }

  meet-Met :
      (prev : List (String × String)) (queue : List String) (nbr node : String)
      → Met prev queue
      → known prev nbr ≡ false
      → known prev node ≡ true
      → Member nbr (adjacent g node)
      → (nbr =s= dst) ≡ false
      → Met (put prev nbr node) (queue ++ nbr ∷ [])
  meet-Met prev queue nbr node h new old edge other = record {
    tree = grow nbr node h.tree new old edge;
    missing = ground (arith, known-put prev nbr node dst, h.missing);
    queued = λ v w. elim (Member-append_cases v nbr queue w) [
      | inl waiting ↦ ground (arith, known-put prev nbr node v, h.queued v waiting)
      | inr e ↦ ground (arith, known-put prev nbr node v, eq_iff nbr v)
    ];
  }

  -- What a scan leaves, from the state that it starts in and the neighbours that it looks at.
  unfoldable pub Scanned : List (String × String) → List String → List String → Scan → Type 0
  Scanned prev queue nbrs (found next) = Tree g src next × (known next dst ≡ true)
  Scanned prev queue nbrs (going next waiting) =
      Met next waiting
      × Later prev queue next waiting
      × ((v : String) → Member v nbrs → known next v ≡ true)

  Scanned-cons :
      (p q : List (String × String)) (a b : List String) (nbr : String) (nbrs : List String)
      (s : Scan)
      → Later p a q b
      → known q nbr ≡ true
      → Scanned q b nbrs s
      → Scanned p a (nbr ∷ nbrs) s
  unfolding Scanned
  Scanned-cons p q a b nbr nbrs (found next) h k r = r
  Scanned-cons p q a b nbr nbrs (going next waiting) h k (met, later, all) = (
    met,
    Later-trans p q next a b waiting h later,
    λ v m. elim m [
      | inl e ↦ ground (arith, later.kept nbr k, ap (known next) e)
      | inr rest ↦ all v rest
    ],
  )

  pub scan-Scanned :
      (node : String) (nbrs : List String) (prev : List (String × String)) (queue : List String)
      → Met prev queue
      → known prev node ≡ true
      → ((v : String) → Member v nbrs → Member v (adjacent g node) × Member v es)
      → Scanned prev queue nbrs (scan dst node nbrs prev queue)
  unfolding scan Scanned
  scan-Scanned node [] prev queue h old edges = (h, Later-here prev queue, λ v m. absurd m)
  scan-Scanned node (nbr ∷ nbrs) prev queue h old edges =
      let later_edges = λ (v : String) (m : Member v nbrs). edges v (inr m) in
      if-split (Scanned prev queue (nbr ∷ nbrs)) (known prev nbr) _ _
        (λ met.
          Scanned-cons prev prev queue queue nbr nbrs _ (Later-here prev queue) met
            (scan-Scanned node nbrs prev queue h old later_edges))
        (λ new.
          if-split (Scanned prev queue (nbr ∷ nbrs)) (nbr =s= dst) _ _
            (λ goal. (
              grow nbr node h.tree new old (edges nbr (inl refl)).0,
              ground (arith, known-put prev nbr node dst),
            ))
            (λ other.
              Scanned-cons prev (put prev nbr node) queue (queue ++ nbr ∷ []) nbr nbrs _
                (meet-Later prev queue nbr node new (edges nbr (inl refl)).1)
                (ground (arith, known-put prev nbr node nbr, eq_iff nbr nbr))
                (scan-Scanned node nbrs (put prev nbr node) (queue ++ nbr ∷ [])
                  (meet-Met prev queue nbr node h new old (edges nbr (inl refl)).0 other)
                  (ground (arith, known-put prev nbr node node)) later_edges)))
