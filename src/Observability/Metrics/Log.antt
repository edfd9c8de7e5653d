-- ===== src/Observability/Metrics/Log.antt =====
-- A run of the registry of src/text_to_sql/observability/metrics.py, from any state.
use build_your_own_text2sql.Base.{if-push, ℕ, suc, String, ◌&&◌, List, [], ◌∷◌, ◌≡◌, refl, ap, ◌∙◌}
use build_your_own_text2sql.Base.Text.{◌=s=◌}
use build_your_own_text2sql.Base.Dict.{get}
use build_your_own_text2sql.Observability.Labels.{LabelKey, label_key, key_eq}
use build_your_own_text2sql.Observability.Metrics.{
  Amounts, Registry, Operation, counter, histogram, inc, observe, reset, perform, run_all,
  empty_registry,
}
use build_your_own_text2sql.Observability.Metrics.Recorded.{
  counted, observed, counter_value, observations, total_of, observed_in, counter-keeps,
  counter-adds, histogram-keeps, histogram-adds,
}

module _ (amounts : Amounts) where
  open amounts use {Amount, of_nat, plus}

  run_all-total :
      (os : List (Operation amounts)) (r : Registry Amount) (name : String) (key : LabelKey)
      → counter_value amounts (run_all amounts r os) name key
        ≡ total_of amounts name key (counter_value amounts r name key) os
  unfolding run_all perform counter_value total_of counted get
  run_all-total [] r name key = refl
  run_all-total (counter n help ∷ os) r name key =
      run_all-total os (perform amounts r (counter n help)) name key
      ∙ ap (λ (t : Amount). total_of amounts name key t os)
          (counter-keeps amounts r n help name key)
  run_all-total (histogram n help buckets ∷ os) r name key =
      run_all-total os (perform amounts r (histogram n help buckets)) name key
  run_all-total (observe n value labels ∷ os) r name key =
      run_all-total os (perform amounts r (observe n value labels)) name key
  run_all-total (reset ∷ os) r name key = run_all-total os empty_registry name key
  run_all-total (inc n amount labels ∷ os) r name key =
      run_all-total os (perform amounts r (inc n amount labels)) name key
      ∙ ap (λ (t : Amount). total_of amounts name key t os)
          (counter-adds amounts r n name amount labels key)
      ∙ if-push (λ (t : Amount). total_of amounts name key t os)
          ((n =s= name) && key_eq (label_key labels) key)
          (plus (counted amounts (get r.counters name) key) amount)
          (counted amounts (get r.counters name) key)

  run_all-observed :
      (os : List (Operation amounts)) (r : Registry Amount) (name : String) (key : LabelKey)
      → observations amounts (run_all amounts r os) name key
        ≡ observed_in amounts name key (observations amounts r name key) os
  unfolding run_all perform observations observed_in observed get
  run_all-observed [] r name key = refl
  run_all-observed (counter n help ∷ os) r name key =
      run_all-observed os (perform amounts r (counter n help)) name key
  run_all-observed (histogram n help buckets ∷ os) r name key =
      run_all-observed os (perform amounts r (histogram n help buckets)) name key
      ∙ ap (λ (t : ℕ × Amount). observed_in amounts name key t os)
          (histogram-keeps amounts r n help name buckets key)
  run_all-observed (inc n amount labels ∷ os) r name key =
      run_all-observed os (perform amounts r (inc n amount labels)) name key
  run_all-observed (reset ∷ os) r name key = run_all-observed os empty_registry name key
  run_all-observed (observe n value labels ∷ os) r name key =
      let seen = observed amounts (get r.histograms name) key in
      run_all-observed os (perform amounts r (observe n value labels)) name key
      ∙ ap (λ (t : ℕ × Amount). observed_in amounts name key t os)
          (histogram-adds amounts r n name value labels key)
      ∙ if-push (λ (t : ℕ × Amount). observed_in amounts name key t os)
          ((n =s= name) && key_eq (label_key labels) key) (suc seen.0, plus seen.1 value) seen

  -- The registry is its log: after any operations on an empty registry, a counter shows, for each name and set
  -- of labels, the amounts that were added under them since the last reset, summed up in their order; a
  -- histogram shows the number of the observations and their sum.
  pub run_all-IsLog :
      (os : List (Operation amounts)) (name : String) (key : LabelKey)
      → (counter_value amounts (run_all amounts empty_registry os) name key
          ≡ total_of amounts name key (of_nat 0) os)
        × (observations amounts (run_all amounts empty_registry os) name key
            ≡ observed_in amounts name key (0, of_nat 0) os)
  unfolding counter_value observations counted observed get
  run_all-IsLog os name key =
      (run_all-total os empty_registry name key, run_all-observed os empty_registry name key)
