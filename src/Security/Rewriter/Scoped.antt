-- ===== src/Security/Rewriter/Scoped.antt =====
-- The tests that the rewriting adds to the scopes of a statement: src/text_to_sql/security/rewriter.py.
use mathlib.Core.Path.{subst}
use build_your_own_text2sql.Base.{
  sym, ap, ◌∙◌, ◌↔◌, ◌⊎◌, String, ◌≡◌, refl, none, some, List, [], ◌∷◌, inl, inr, Option-cases,
}
use build_your_own_text2sql.Base.Lists.{Member}
use build_your_own_text2sql.Domain.Tables.{DatabaseSchema, table}
use build_your_own_text2sql.Sqlglot.{SqlGlot, NodeClass, Predicate}
use build_your_own_text2sql.Security.Rewriter.{
  build_predicate, tenant_column_of, Target, target_of, targets, qualifier_of, apply_targets,
  rewrite,
}

module _ (sg : SqlGlot) where
  open sg use {Expression, Node, find_all, find_ancestor, name, copy, append_where}

  -- What SQLGlot documents of `where(…, append=True)`: the predicate is joined by AND to the
  -- condition of the scope, and no other scope gets a test of its own. `Joins` holds for the tests
  -- of a column against a literal that a scope's WHERE joins by AND.
  pub record WhereLaws : Type 1 where
    pub Joins : Expression → Node → Predicate → Type 0
    pub appended :
        (e : Expression) (s r : Node) (p q : Predicate)
        → Joins (append_where e s p) r q ↔ (Joins e r q ⊎ (r ≡ s) × (q ≡ p))

  -- The predicate is the tenant's, on one of the tables of the statement that have a tenant column,
  -- under its alias or name, for the nearest SELECT around that table.
  pub record IsTenantTest (e : Expression) (schema : DatabaseSchema) (tenant_id : String)
      (scope : Node) (q : Predicate) : Type 0 where
    pub table_node : Node
    pub column : String
    pub found : Member table_node (find_all e NodeClass.table)
    pub tenant : tenant_column_of (table schema (name table_node)) ≡ some column
    pub nearest : find_ancestor e table_node NodeClass.select ≡ some scope
    pub test : q ≡ build_predicate (qualifier_of sg table_node) column tenant_id

  -- a target whose predicate is the one given
  record IsTarget (ts : List (Target sg)) (tenant_id : String) (scope : Node) (q : Predicate)
      : Type 0 where
    table_node : Node
    column : String
    listed : Member (scope, table_node, column) ts
    test : q ≡ build_predicate (qualifier_of sg table_node) column tenant_id

  module _ (laws : WhereLaws) where
    apply_targets-to :
        (ts : List (Target sg)) (e : Expression) (tenant_id : String) (r : Node) (q : Predicate)
        → laws.Joins e r q ⊎ IsTarget ts tenant_id r q
        → laws.Joins (apply_targets sg e tenant_id ts) r q
    unfolding apply_targets
    apply_targets-to [] e tenant_id r q (inl m) = m
    apply_targets-to [] e tenant_id r q (inr t) = absurd t.listed
    apply_targets-to ((scope, t, column) ∷ rest) e tenant_id r q (inl m) =
        apply_targets-to rest _ tenant_id r q (inl ((laws.appended e scope r _ q).1 (inl m)))
    apply_targets-to ((scope, t, column) ∷ rest) e tenant_id r q (inr target) = elim target.listed [
      | inl same ↦ apply_targets-to rest _ tenant_id r q (
          inl (
            (laws.appended e scope r _ q).1 (
              inr (
                ap (λ (p : Target sg). p.0) same,
                target.test
                    ∙ ap (λ (p : Target sg). build_predicate (qualifier_of sg p.1) p.2 tenant_id)
                        same,
              ))))
      | inr more ↦ apply_targets-to rest _ tenant_id r q (
          inr (record {
            table_node = target.table_node;
            column = target.column;
            listed = more;
            test = target.test;
          }))
    ]

    apply_targets-of :
        (ts : List (Target sg)) (e : Expression) (tenant_id : String) (r : Node) (q : Predicate)
        → laws.Joins (apply_targets sg e tenant_id ts) r q
        → laws.Joins e r q ⊎ IsTarget ts tenant_id r q
    unfolding apply_targets
    apply_targets-of [] e tenant_id r q m = inl m
    apply_targets-of ((scope, t, column) ∷ rest) e tenant_id r q m =
        elim (apply_targets-of rest _ tenant_id r q m) [
          | inr target ↦ inr (record {
            table_node = target.table_node;
            column = target.column;
            listed = inr target.listed;
            test = target.test;
          })
          | inl before ↦ elim ((laws.appended e scope r _ q).0 before) [
            | inl old ↦ inl old
            | inr (here, test) ↦ inr (record {
              table_node = t;
              column = column;
              listed = inl (ap (λ (n : Node). (n, t, column)) here);
              test = test;
            })
          ]
        ]

  target_of-eq :
      (e : Expression) (schema : DatabaseSchema) (t scope : Node) (column : String)
      → tenant_column_of (table schema (name t)) ≡ some column
      → find_ancestor e t NodeClass.select ≡ some scope
      → target_of sg e schema t ≡ some (scope, t, column)
  unfolding target_of
  target_of-eq e schema t scope column tenant select =
      rw (tenant, target_of) (rw (select, target_of) refl)

  -- a table is no target, or the one of its tenant column and its nearest SELECT
  target_of-cases :
      (e : Expression) (schema : DatabaseSchema) (t : Node)
      → (target_of sg e schema t ≡ none)
        ⊎ ((scope : Node) × (column : String) × (tenant_column_of (table schema (name t))
              ≡ some column)
            × (find_ancestor e t NodeClass.select ≡ some scope)
            × (target_of sg e schema t ≡ some (scope, t, column)))
  unfolding target_of
  target_of-cases e schema t = elim (Option-cases (tenant_column_of (table schema (name t)))) [
    | inl absent ↦ inl (rw (absent, target_of) refl)
    | inr (column, tenant) ↦ elim (Option-cases (find_ancestor e t NodeClass.select)) [
      | inl outer ↦ inl (rw (tenant, target_of) (rw (outer, target_of) refl))
      | inr (scope, select) ↦
          inr (scope, column, tenant, select, target_of-eq e schema t scope column tenant select)
    ]
  ]

  targets-to :
      (e : Expression) (schema : DatabaseSchema) (ts : List Node) (t : Node) (target : Target sg)
      → Member t ts
      → target_of sg e schema t ≡ some target
      → Member target (targets sg e schema ts)
  unfolding targets
  targets-to e schema [] t target m h = absurd m
  targets-to e schema (u ∷ us) t target (inl eq) h =
      let found : target_of sg e schema u ≡ some target =
        subst (λ (x : Node). target_of sg e schema x ≡ some target) eq h in
      rw (found, targets) (inl refl)
  targets-to e schema (u ∷ us) t target (inr m) h =
      let rest = targets-to e schema us t target m h in
      elim (Option-cases (target_of sg e schema u)) [
        | inl absent ↦ rw (absent, targets) rest
        | inr (other, found) ↦ rw (found, targets) (inr rest)
      ]

  targets-cons :
      (e : Expression) (schema : DatabaseSchema) (u : Node) (us : List Node) (target : Target sg)
      → target_of sg e schema u ≡ some target
      → targets sg e schema (u ∷ us) ≡ target ∷ targets sg e schema us
  unfolding targets
  targets-cons e schema u us target found = rw (found, targets) refl

  targets-skip :
      (e : Expression) (schema : DatabaseSchema) (u : Node) (us : List Node)
      → target_of sg e schema u ≡ none
      → targets sg e schema (u ∷ us) ≡ targets sg e schema us
  unfolding targets
  targets-skip e schema u us absent = rw (absent, targets) refl

  targets-of :
      (e : Expression) (schema : DatabaseSchema) (tenant_id : String) (scope : Node) (q : Predicate)
      (ts : List Node)
      → ((t : Node) → Member t ts → Member t (find_all e NodeClass.table))
      → IsTarget (targets sg e schema ts) tenant_id scope q
      → IsTenantTest e schema tenant_id scope q
  unfolding targets
  targets-of e schema tenant_id scope q [] within target = absurd target.listed
  targets-of e schema tenant_id scope q (u ∷ us) within target =
      let later = targets-of e schema tenant_id scope q us (λ t m. within t (inr m)) in
      elim (target_of-cases e schema u) [
        | inl absent ↦ later (record {
          table_node = target.table_node;
          column = target.column;
          listed =
              subst (λ (ts : List (Target sg)). Member (scope, target.table_node, target.column) ts)
                (targets-skip e schema u us absent) target.listed;
          test = target.test;
        })
        | inr (s, c, tenant, select, found) ↦
            elim (subst
              (λ (ts : List (Target sg)). Member (scope, target.table_node, target.column) ts)
              (targets-cons e schema u us (s, u, c) found) target.listed) [
                | inl same ↦ record {
                  table_node = u;
                  column = c;
                  found = within u (inl refl);
                  tenant = tenant;
                  nearest = select ∙ ap (λ (p : Target sg). some p.0) (sym same);
                  test =
                      target.test
                      ∙ ap (λ (p : Target sg). build_predicate (qualifier_of sg p.1) p.2 tenant_id)
                          same;
                }
                | inr more ↦ later (record {
                  table_node = target.table_node;
                  column = target.column;
                  listed = more;
                  test = target.test;
                })
              ]
      ]

  -- The rewritten statement has, among the tests of a column against a literal that the WHERE of a
  -- SELECT joins by AND, those that the statement had there and the tenant tests of its tables: one
  -- for each table with a tenant column whose nearest SELECT this is, on the table's alias or name;
  -- and no others.
  pub rewrite-scoped_iff :
      (laws : WhereLaws) (e : Expression) (schema : DatabaseSchema) (tenant_id : String)
      (scope : Node) (q : Predicate)
      → laws.Joins (rewrite sg e schema tenant_id).0 scope q
        ↔ (laws.Joins (copy e) scope q ⊎ IsTenantTest (copy e) schema tenant_id scope q)
  unfolding rewrite
  rewrite-scoped_iff laws e schema tenant_id scope q =
      let tables = find_all (copy e) NodeClass.table in
      let ts = targets sg (copy e) schema tables in
      (
        λ m. elim (apply_targets-of laws ts (copy e) tenant_id scope q m) [
          | inl old ↦ inl old
          | inr target ↦ inr (targets-of (copy e) schema tenant_id scope q tables (λ t k. k) target)
        ],
        λ m. elim m [
          | inl old ↦ apply_targets-to laws ts (copy e) tenant_id scope q (inl old)
          | inr t ↦ apply_targets-to laws ts (copy e) tenant_id scope q (
              inr (record {
                table_node = t.table_node;
                column = t.column;
                listed =
                    targets-to (copy e) schema tables t.table_node _ t.found
                      (target_of-eq (copy e) schema t.table_node scope t.column t.tenant t.nearest);
                test = t.test;
              }))
        ],
      )
