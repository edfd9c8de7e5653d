-- ===== src/Observability/Metrics.antt =====
-- The registry of src/text_to_sql/observability/metrics.py. Its lock makes each operation one step. Floats are
-- a parameter.
pub mod Values
pub mod Recorded
pub mod Log
pub mod Rendered
pub mod Buckets
use build_your_own_text2sql.Base.{
  ℕ, zero, suc, ◌+◌, String, Bool, or_default, List, [], ◌∷◌, ◌++◌, map, if◌then◌else◌,
}
use build_your_own_text2sql.Base.Text.{◌+s◌, is_empty, join, decimal}
use build_your_own_text2sql.Base.Dict.{get, put}
use build_your_own_text2sql.Observability.Labels.{LabelKey, label_key, key_le, render_labels}
use build_your_own_text2sql.Observability.Metrics.Values.{value_at, put_at}

-- Python's floats, with what the registry does with them
pub record Amounts : Type 1 where
  pub Amount : Type 0
  pub of_nat : ℕ → Amount
  pub plus : Amount → Amount → Amount
  pub at_most : Amount → Amount → Bool
  pub shown : Amount → String

pub record Counter (A : Type 0) : Type 0 where
  pub name : String
  pub help : String
  pub values : List (LabelKey × A)

pub record Histogram (A : Type 0) : Type 0 where
  pub name : String
  pub help : String
  pub buckets : List A
  pub bucket_counts : List (LabelKey × List ℕ)
  pub sums : List (LabelKey × A)
  pub counts : List (LabelKey × ℕ)

pub record Registry (A : Type 0) : Type 0 where
  pub counters : List (String × Counter A)
  pub histograms : List (String × Histogram A)

abbrev pub empty_registry : {A : Type 0} → Registry A
empty_registry = record { counters = []; histograms = [] }

-- `[0] * (len(buckets) + 1)`
unfoldable pub zeros : {A : Type 0} → List A → List ℕ
zeros [] = 0 ∷ []
zeros (b ∷ bs) = 0 ∷ zeros bs

-- `help_text or name`
help_or : String → String → String
help_or help name = if is_empty help then name else help

module _ (amounts : Amounts) where
  open amounts use {Amount, of_nat, plus, at_most, shown}

  abbrev pub default_buckets : List Amount
  default_buckets =
      map of_nat (1 ∷ 5 ∷ 10 ∷ 25 ∷ 50 ∷ 100 ∷ 250 ∷ 500 ∷ 1000 ∷ 2500 ∷ 5000 ∷ 10000 ∷ [])

  -- `_Counter.inc`
  unfoldable pub counter_inc : Counter Amount → Amount → List (String × String) → Counter Amount
  unfolding put_at value_at label_key
  counter_inc c amount labels = record c {
    values =
        put_at c.values (label_key labels)
          (plus (value_at (of_nat 0) c.values (label_key labels)) amount);
  }

  -- `counts[-1] += 1`
  unfoldable pub bump_last : List ℕ → List ℕ
  bump_last [] = []
  bump_last (n ∷ []) = suc n ∷ []
  bump_last (n ∷ m ∷ ns) = n ∷ bump_last (m ∷ ns)

  -- the first bucket whose bound is at least the value, or the last one
  unfoldable pub place : List Amount → List ℕ → Amount → List ℕ
  unfolding bump_last
  place [] ns value = bump_last ns
  place (b ∷ bs) [] value = []
  place (b ∷ bs) (n ∷ ns) value =
      let rest = place bs ns value in if at_most value b then suc n ∷ ns else n ∷ rest

  -- `_Histogram.observe`
  unfoldable pub histogram_observe :
      Histogram Amount → Amount → List (String × String) → Histogram Amount
  unfolding put_at value_at label_key place zeros
  histogram_observe h value labels =
      let key = label_key labels in
      record h {
        bucket_counts =
            put_at h.bucket_counts key
              (place h.buckets (value_at (zeros h.buckets) h.bucket_counts key) value);
        sums = put_at h.sums key (plus (value_at (of_nat 0) h.sums key) value);
        counts = put_at h.counts key (suc (value_at 0 h.counts key));
      }

  unfoldable pub new_counter : String → String → Counter Amount
  unfolding help_or
  new_counter name help = record { name = name; help = help_or help name; values = [] }

  unfoldable pub new_histogram : String → String → List Amount → Histogram Amount
  unfolding help_or
  new_histogram name help buckets = record {
    name = name;
    help = help_or help name;
    buckets = buckets;
    bucket_counts = [];
    sums = [];
    counts = [];
  }

  -- the object that is registered, or a new one
  unfoldable pub counter_of : Registry Amount → String → String → Counter Amount
  unfolding get new_counter
  counter_of r name help = or_default (new_counter name help) (get r.counters name)

  unfoldable pub histogram_of : Registry Amount → String → String → List Amount → Histogram Amount
  unfolding get new_histogram
  histogram_of r name help buckets =
      or_default (new_histogram name help buckets) (get r.histograms name)

  -- The operations of the registry.
  pub data Operation : Type 0 where
    counter : String → String → Operation
    histogram : String → String → List Amount → Operation
    inc : String → Amount → List (String × String) → Operation
    observe : String → Amount → List (String × String) → Operation
    reset : Operation

  unfoldable pub perform : Registry Amount → Operation → Registry Amount
  unfolding put counter_of histogram_of counter_inc histogram_observe
  perform r (counter name help) = record r {
    counters = put r.counters name (counter_of r name help);
  }
  perform r (histogram name help buckets) = record r {
    histograms = put r.histograms name (histogram_of r name help buckets);
  }
  perform r (inc name amount labels) = record r {
    counters = put r.counters name (counter_inc (counter_of r name "") amount labels);
  }
  perform r (observe name value labels) = record r {
    histograms =
        put r.histograms name
          (histogram_observe (histogram_of r name "" default_buckets) value labels);
  }
  perform r reset = empty_registry

  unfoldable pub run_all : Registry Amount → List Operation → Registry Amount
  unfolding perform
  run_all r [] = r
  run_all r (o ∷ os) = run_all (perform r o) os
