-- ===== src/Observability/Metrics/Values.antt =====
-- `defaultdict`s under label keys, in src/text_to_sql/observability/metrics.py.
use build_your_own_text2sql.Base.{List, [], ◌∷◌, String, if◌then◌else◌, ◌≡◌, refl, arith, ap}
use build_your_own_text2sql.Observability.Labels.{key_eq, key_eq_refl, key_eq-eq}

module _ {V : Type 0} where
  -- `d[key]`, with the default where there is none
  unfoldable pub value_at : V → List (List (String × String) × V) → List (String × String) → V
  unfolding key_eq
  value_at v [] k = v
  value_at v ((j, w) ∷ d) k = if key_eq j k then w else value_at v d k

  -- `d[key] = v`
  unfoldable pub put_at :
      List (List (String × String) × V)
      → List (String × String)
      → V
      → List (List (String × String) × V)
  unfolding key_eq
  put_at [] k v = (k, v) ∷ []
  put_at ((j, w) ∷ d) k v = if key_eq j k then (k, v) ∷ d else (j, w) ∷ put_at d k v

  pub value_at-put_at :
      (z : V) (d : List (List (String × String) × V)) (k j : List (String × String)) (v : V)
      → value_at z (put_at d k v) j ≡ (if key_eq k j then v else value_at z d j)
  unfolding value_at put_at
  value_at-put_at z [] k j v = refl
  value_at-put_at z ((i, w) ∷ d) k j v = ground (
    arith,
    value_at-put_at z d k j v,
    key_eq-eq i k,
    key_eq-eq k j,
    key_eq-eq i j,
    key_eq_refl j,
    key_eq_refl k,
    ap (λ (x : List (String × String)). key_eq x j),
    ap (key_eq i),
  )
