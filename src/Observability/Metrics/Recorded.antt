-- ===== src/Observability/Metrics/Recorded.antt =====
-- What the registry of src/text_to_sql/observability/metrics.py holds, against the log of its operations.
use text.Mathlib.TextEquality.{eq_iff}
use build_your_own_text2sql.Base.{
  or_default, ℕ, suc, String, true, ◌&&◌, Option, none, some, List, [], ◌∷◌, if◌then◌else◌, ◌≡◌,
  refl, ap, arith, inl, inr, Bool-cases,
}
use build_your_own_text2sql.Base.Text.{◌=s=◌}
use build_your_own_text2sql.Base.Dict.{get, put, get-put}
use build_your_own_text2sql.Observability.Labels.{LabelKey, label_key, key_eq, key_eq-eq}
use build_your_own_text2sql.Observability.Metrics.{
  Amounts, Counter, Histogram, Registry, Operation, counter, histogram, inc, observe, reset,
  counter_inc, counter_of, new_counter, histogram_observe, histogram_of, new_histogram,
  default_buckets,
}
use build_your_own_text2sql.Observability.Metrics.Values.{value_at, value_at-put_at}

module _ (amounts : Amounts) where
  open amounts use {Amount, of_nat, plus}

  -- what the registry shows under a name and a key
  unfoldable pub counted : Option (Counter Amount) → LabelKey → Amount
  counted none key = of_nat 0
  counted (some c) key = value_at (of_nat 0) c.values key

  unfoldable pub observed : Option (Histogram Amount) → LabelKey → ℕ × Amount
  observed none key = (0, of_nat 0)
  observed (some h) key = (value_at 0 h.counts key, value_at (of_nat 0) h.sums key)

  unfoldable pub counter_value : Registry Amount → String → LabelKey → Amount
  unfolding counted get
  counter_value r name key = counted (get r.counters name) key

  -- the number of observations, and their sum
  unfoldable pub observations : Registry Amount → String → LabelKey → ℕ × Amount
  unfolding observed get
  observations r name key = observed (get r.histograms name) key

  -- The log of the operations, read from the oldest on: what was added under the name and the labels since the
  -- last reset.
  unfoldable pub total_of : String → LabelKey → Amount → List (Operation amounts) → Amount
  total_of name key total [] = total
  total_of name key total (inc n amount labels ∷ os) =
      let more = total_of name key (plus total amount) os in
      let same = total_of name key total os in
      if (n =s= name) && key_eq (label_key labels) key then more else same
  total_of name key total (reset ∷ os) = total_of name key (of_nat 0) os
  total_of name key total (counter n help ∷ os) = total_of name key total os
  total_of name key total (histogram n help buckets ∷ os) = total_of name key total os
  total_of name key total (observe n value labels ∷ os) = total_of name key total os

  unfoldable pub observed_in :
      String → LabelKey → ℕ × Amount → List (Operation amounts) → ℕ × Amount
  observed_in name key seen [] = seen
  observed_in name key seen (observe n value labels ∷ os) =
      let more = observed_in name key (suc seen.0, plus seen.1 value) os in
      let same = observed_in name key seen os in
      if (n =s= name) && key_eq (label_key labels) key then more else same
  observed_in name key seen (reset ∷ os) = observed_in name key (0, of_nat 0) os
  observed_in name key seen (counter n help ∷ os) = observed_in name key seen os
  observed_in name key seen (histogram n help buckets ∷ os) = observed_in name key seen os
  observed_in name key seen (inc n amount labels ∷ os) = observed_in name key seen os

  -- a new counter shows what a missing one shows
  counted-or_default :
      (name help : String) (o : Option (Counter Amount)) (key : LabelKey)
      → counted (some (or_default (new_counter amounts name help) o)) key ≡ counted o key
  unfolding counted value_at new_counter
  counted-or_default name help none key = refl
  counted-or_default name help (some c) key = refl

  -- what stands under a name after a `put`, as far as a view of it tells
  get-put-view :
      {V B : Type 0} (view : Option V → B) (d : List (String × V)) (n name : String) (v : V)
      → view (get (put d n v) name) ≡ (if n =s= name then view (some v) else view (get d name))
  get-put-view view d n name v = elim (Bool-cases (n =s= name)) [
    | inl same ↦ rw (get-put d n name v) (rw same refl)
    | inr other ↦ rw (get-put d n name v) (rw other refl)
  ]

  get-same :
      {V B : Type 0} (view : Option V → B) (d : List (String × V)) (n name : String)
      → (n =s= name) ≡ true
      → view (get d n) ≡ view (get d name)
  get-same view d n name h = ap (λ (x : String). view (get d x)) ((eq_iff n name).0 h)

  pub counter-keeps :
      (r : Registry Amount) (n help name : String) (key : LabelKey)
      → counted (get (put r.counters n (counter_of amounts r n help)) name) key
        ≡ counted (get r.counters name) key
  unfolding counter_of
  counter-keeps r n help name key = ground (
    arith,
    get-put-view (λ (o : Option (Counter Amount)). counted o key) r.counters n name
        (counter_of amounts r n help),
    counted-or_default n help (get r.counters n) key,
    get-same (λ (o : Option (Counter Amount)). counted o key) r.counters n name,
  )

  counted-counter_inc :
      (c : Counter Amount) (amount : Amount) (labels : List (String × String)) (key : LabelKey)
      → counted (some (counter_inc amounts c amount labels)) key ≡ (
          if key_eq (label_key labels) key
          then plus (counted (some c) key) amount
          else counted (some c) key)
  unfolding counted counter_inc
  counted-counter_inc c amount labels key =
      let k = label_key labels in
      ground (
        arith,
        value_at-put_at (of_nat 0) c.values k key (plus (value_at (of_nat 0) c.values k) amount),
        key_eq-eq k key,
        ap (value_at (of_nat 0) c.values),
      )

  pub counter-adds :
      (r : Registry Amount) (n name : String) (amount : Amount) (labels : List (String × String))
      (key : LabelKey)
      → counted
          (get
            (put r.counters n (counter_inc amounts (counter_of amounts r n "") amount labels))
            name)
          key
        ≡ (if (n =s= name) && key_eq (label_key labels) key
            then plus (counted (get r.counters name) key) amount
            else counted (get r.counters name) key)
  unfolding counter_of
  counter-adds r n name amount labels key = ground (
    arith,
    get-put-view (λ (o : Option (Counter Amount)). counted o key) r.counters n name
        (counter_inc amounts (counter_of amounts r n "") amount labels),
    counted-counter_inc (counter_of amounts r n "") amount labels key,
    counted-or_default n "" (get r.counters n) key,
    get-same (λ (o : Option (Counter Amount)). counted o key) r.counters n name,
  )

  observed-or_default :
      (name help : String) (buckets : List Amount) (o : Option (Histogram Amount)) (key : LabelKey)
      → observed (some (or_default (new_histogram amounts name help buckets) o)) key
        ≡ observed o key
  unfolding observed value_at new_histogram
  observed-or_default name help buckets none key = refl
  observed-or_default name help buckets (some h) key = refl

  observed-histogram_observe :
      (h : Histogram Amount) (value : Amount) (labels : List (String × String)) (key : LabelKey)
      → observed (some (histogram_observe amounts h value labels)) key ≡ (
          if key_eq (label_key labels) key
          then (suc (observed (some h) key).0, plus (observed (some h) key).1 value)
          else observed (some h) key)
  unfolding observed histogram_observe
  observed-histogram_observe h value labels key =
      let k = label_key labels in
      ground (
        arith,
        value_at-put_at (of_nat 0) h.sums k key (plus (value_at (of_nat 0) h.sums k) value),
        value_at-put_at 0 h.counts k key (suc (value_at 0 h.counts k)),
        key_eq-eq k key,
        ap (value_at (of_nat 0) h.sums),
        ap (value_at 0 h.counts),
      )

  pub histogram-keeps :
      (r : Registry Amount) (n help name : String) (buckets : List Amount) (key : LabelKey)
      → observed (get (put r.histograms n (histogram_of amounts r n help buckets)) name) key
        ≡ observed (get r.histograms name) key
  unfolding histogram_of
  histogram-keeps r n help name buckets key = ground (
    arith,
    get-put-view (λ (o : Option (Histogram Amount)). observed o key) r.histograms n name
        (histogram_of amounts r n help buckets),
    observed-or_default n help buckets (get r.histograms n) key,
    get-same (λ (o : Option (Histogram Amount)). observed o key) r.histograms n name,
  )

  pub histogram-adds :
      (r : Registry Amount) (n name : String) (value : Amount) (labels : List (String × String))
      (key : LabelKey)
      → observed
          (get
            (put r.histograms n (
              histogram_observe amounts
                (histogram_of amounts r n "" (default_buckets amounts))
                value
                labels))
            name)
          key
        ≡ (if (n =s= name) && key_eq (label_key labels) key
            then (
              suc (observed (get r.histograms name) key).0,
              plus (observed (get r.histograms name) key).1 value,
            )
            else observed (get r.histograms name) key)
  unfolding histogram_of
  histogram-adds r n name value labels key = ground (
    arith,
    get-put-view (λ (o : Option (Histogram Amount)). observed o key) r.histograms n name
        (histogram_observe amounts (histogram_of amounts r n "" (default_buckets amounts)) value
          labels),
    observed-histogram_observe (histogram_of amounts r n "" (default_buckets amounts)) value labels
        key,
    observed-or_default n "" (default_buckets amounts) (get r.histograms n) key,
    get-same (λ (o : Option (Histogram Amount)). observed o key) r.histograms n name,
  )
